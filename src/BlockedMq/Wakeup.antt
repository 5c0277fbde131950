-- ===== src/BlockedMq/Wakeup.antt =====
-- Which threads wait, and what wakes them.
use my_codebase.Base.{
  ℕ, ◌≡◌, ◌≢◌, refl, sym, ◌∙◌, ◌==◌, inl, inr, List, [], ◌∷◌, ◌++◌, length, none, some, Bool, true,
  false, arith, Bool-cases,
}
use mathlib.Core.Bool.{false≢true}
use my_codebase.BlockedMq.{
  Thread, idle, pushing, waiting_full, popping, waiting_empty, wake_empty, wake_full, put, Mq,
  new_mq, push_section, pop_section, waits, takes, Step, Reachable, start, step, call_push,
  call_pop, push_waits, push_ends, pop_waits, pop_fails, pop_ends, push_stirs, pop_stirs, set_done,
}

abbrev pub waits_full {ℓ} : {A : Type ℓ} → Thread A → Bool
waits_full (waiting_full a) = true
waits_full _ = false

abbrev pub waits_empty {ℓ} : {A : Type ℓ} → Thread A → Bool
waits_empty waiting_empty = true
waits_empty _ = false

-- What holds of all other threads and of the thread's new point holds of all.
after_put {ℓ κ} :
    {A : Type ℓ} {R : Type κ} (P : Thread A → Bool) (i : ℕ) (t : Thread A) (threads : ℕ → Thread A)
    → P t ≡ false
    → ((j : ℕ) → P (threads j) ≡ true → R)
    → (j : ℕ) → P (put i t threads j) ≡ true
    → R
unfolding put
after_put P i t threads not_here there j h = elim (Bool-cases (j == i)) [
  | inl e ↦ absurd (false≢true (sym not_here ∙ rw e at h))
  | inr e ↦ there j (rw e at h)
]

full_after_wake_full {ℓ} : {A : Type ℓ} (t : Thread A) → waits_full (wake_full t) ≡ false
unfolding wake_full
full_after_wake_full idle = refl
full_after_wake_full (pushing a) = refl
full_after_wake_full (waiting_full a) = refl
full_after_wake_full popping = refl
full_after_wake_full waiting_empty = refl

empty_after_wake_full {ℓ} : {A : Type ℓ} (t : Thread A) → waits_empty (wake_full t) ≡ waits_empty t
unfolding wake_full
empty_after_wake_full idle = refl
empty_after_wake_full (pushing a) = refl
empty_after_wake_full (waiting_full a) = refl
empty_after_wake_full popping = refl
empty_after_wake_full waiting_empty = refl

full_after_wake_empty {ℓ} : {A : Type ℓ} (t : Thread A) → waits_full (wake_empty t) ≡ waits_full t
unfolding wake_empty
full_after_wake_empty idle = refl
full_after_wake_empty (pushing a) = refl
full_after_wake_empty (waiting_full a) = refl
full_after_wake_empty popping = refl
full_after_wake_empty waiting_empty = refl

empty_after_wake_empty {ℓ} : {A : Type ℓ} (t : Thread A) → waits_empty (wake_empty t) ≡ false
unfolding wake_empty
empty_after_wake_empty idle = refl
empty_after_wake_empty (pushing a) = refl
empty_after_wake_empty (waiting_full a) = refl
empty_after_wake_empty popping = refl
empty_after_wake_empty waiting_empty = refl

module _ {ℓ} {A : Type ℓ} (most : ℕ) where
  -- Nobody waits without a reason.
  pub record IsAwake (s : Mq A) : Type ℓ where
    pub full : (i : ℕ) → waits_full (s.threads i) ≡ true → length s.queue ≡ most
    pub empty : (i : ℕ) → waits_empty (s.threads i) ≡ true → s.queue ≡ []

  push_section-none :
      (a : A) (queue : List A) → push_section most a queue ≡ none → length queue ≡ most
  unfolding push_section
  push_section-none a queue e = ground (arith, e)

  push_section-room :
      (a : A) (queue queue' : List A)
      → push_section most a queue ≡ some queue'
      → length queue ≢ most
  unfolding push_section
  push_section-room a queue queue' e = ground (arith, e)

  pop_section-waits : (done : Bool) (queue : List A) → pop_section done queue ≡ waits → queue ≡ []
  unfolding pop_section
  pop_section-waits done [] e = refl
  pop_section-waits done (b ∷ bs) e = cc

  pop_section-some :
      (done : Bool) (queue : List A) (a : A) (queue' : List A)
      → pop_section done queue ≡ takes a queue'
      → queue ≢ []
  unfolding pop_section
  pop_section-some false [] a queue' e = cc
  pop_section-some true [] a queue' e = cc
  pop_section-some done (b ∷ bs) a queue' e = cc

  -- A thread that does not wait after its step.
  moved :
      (s : Mq A) (i : ℕ) (t : Thread A)
      → IsAwake s
      → waits_full t ≡ false
      → waits_empty t ≡ false
      → IsAwake (record s { threads = put i t s.threads })
  moved s i t v h k = record {
    full = after_put waits_full i t s.threads h v.full;
    empty = after_put waits_empty i t s.threads k v.empty;
  }

  push_ends-IsAwake :
      (s : Mq A) (i : ℕ) (a : A) (queue' : List A)
      → IsAwake s
      → push_section most a s.queue ≡ some queue'
      → IsAwake (record s {
        queue = queue';
        threads = λ j. wake_empty (put i idle s.threads j);
        pushed = s.pushed ++ (a ∷ []);
      })
  push_ends-IsAwake s i a queue' v e = record {
    full = λ j h. absurd (
        push_section-room a s.queue queue' e (
          after_put waits_full i idle s.threads refl v.full j
            (sym (full_after_wake_empty (put i idle s.threads j)) ∙ h)));
    empty = λ j h. absurd (false≢true (sym (empty_after_wake_empty (put i idle s.threads j)) ∙ h));
  }

  pop_ends-IsAwake :
      (s : Mq A) (i : ℕ) (a : A) (queue' : List A)
      → IsAwake s
      → pop_section s.done s.queue ≡ takes a queue'
      → IsAwake (record s {
        queue = queue';
        threads = λ j. wake_full (put i idle s.threads j);
        popped = s.popped ++ (a ∷ []);
      })
  pop_ends-IsAwake s i a queue' v e = record {
    full = λ j h. absurd (false≢true (sym (full_after_wake_full (put i idle s.threads j)) ∙ h));
    empty = λ j h. absurd (
        pop_section-some s.done s.queue a queue' e (
          after_put waits_empty i idle s.threads refl v.empty j
            (sym (empty_after_wake_full (put i idle s.threads j)) ∙ h)));
  }

  Step-IsAwake : {s s' : Mq A} → IsAwake s → Step most s s' → IsAwake s'
  Step-IsAwake {s} v (call_push i a at) = moved s i (pushing a) v refl refl
  Step-IsAwake {s} v (call_pop i at) = moved s i popping v refl refl
  Step-IsAwake {s} v (push_waits i a at e) = record {
    full = λ _ _. push_section-none a s.queue e;
    empty = after_put waits_empty i (waiting_full a) s.threads refl v.empty;
  }
  Step-IsAwake {s} v (push_ends i a queue' at e) = push_ends-IsAwake s i a queue' v e
  Step-IsAwake {s} v (pop_waits i at e) = record {
    full = after_put waits_full i waiting_empty s.threads refl v.full;
    empty = λ _ _. pop_section-waits s.done s.queue e;
  }
  Step-IsAwake {s} v (pop_fails i at e) = moved s i idle v refl refl
  Step-IsAwake {s} v (pop_ends i a queue' at e) = pop_ends-IsAwake s i a queue' v e
  Step-IsAwake {s} v (push_stirs i a at) = moved s i (pushing a) v refl refl
  Step-IsAwake {s} v (pop_stirs i at) = moved s i popping v refl refl
  Step-IsAwake v set_done = record { full = v.full; empty = v.empty }

  -- No wake-up is lost: in every state that the threads can reach a thread waits in `Push` only
  -- while the queue is full, and in `Pop` only while it is empty.
  pub Reachable-IsAwake : {s : Mq A} → Reachable most s → IsAwake s
  unfolding new_mq
  Reachable-IsAwake start = record {
    full = λ i h. absurd (false≢true h);
    empty = λ i h. absurd (false≢true h);
  }
  Reachable-IsAwake (step r st) = Step-IsAwake (Reachable-IsAwake r) st
