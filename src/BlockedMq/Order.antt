-- ===== src/BlockedMq/Order.antt =====
-- The queue is bounded, and hands on what was pushed in that order.
use mathlib.Core.Bool.{true≢false}
use my_codebase.Base.{
  some_inj, none_or_some, if_true, if_false, ==_iff, ◌≢◌, ℕ, ◌≤◌, ◌≡◌, refl, sym, ap, ◌∙◌, ◌==◌,
  inl, inr, List, [], ◌∷◌, ◌++◌, length, length-append, append_assoc, some, Bool, true, false,
  arith, Bool-cases,
}
use my_codebase.BlockedMq.{
  Mq, new_mq, push_section, pop_section, takes, Step, Reachable, start, step, call_push, call_pop,
  push_waits, push_ends, pop_waits, pop_fails, pop_ends, push_stirs, pop_stirs, set_done,
}

module _ {ℓ} {A : Type ℓ} (most : ℕ) where
  pub record IsOrdered (s : Mq A) : Type ℓ where
    pub bounded : length s.queue ≤ most
    pub in_order : s.pushed ≡ s.popped ++ s.queue

  -- `Push` appends, below the bound.
  push_section-some :
      (a : A) (queue queue' : List A)
      → length queue ≤ most
      → push_section most a queue ≡ some queue'
      → (queue' ≡ queue ++ (a ∷ [])) × (length queue' ≤ most)
  unfolding push_section
  push_section-some a queue queue' h e = elim (Bool-cases (length queue == most)) [
    | inl full ↦ absurd (none_or_some (sym (if_true _ _ _ full) ∙ e))
    | inr room ↦
        let same : queue' ≡ queue ++ (a ∷ []) = some_inj (sym e ∙ if_false _ _ _ room) in
        let below : length queue ≢ most =
          λ t. absurd (true≢false (sym ((==_iff _ _).1 t) ∙ room)) in
        (same, omega (arith, ap length same, length-append queue (a ∷ []), h, below))
  ]

  pop_section-takes :
      (done : Bool) (queue : List A) (a : A) (queue' : List A)
      → pop_section done queue ≡ takes a queue'
      → queue ≡ a ∷ queue'
  unfolding pop_section
  pop_section-takes false [] a queue' e = cc
  pop_section-takes true [] a queue' e = cc
  pop_section-takes done (b ∷ bs) a queue' e = cc

  Step-IsOrdered : {s s' : Mq A} → IsOrdered s → Step most s s' → IsOrdered s'
  Step-IsOrdered v (call_push i a at) = record { bounded = v.bounded; in_order = v.in_order }
  Step-IsOrdered v (call_pop i at) = record { bounded = v.bounded; in_order = v.in_order }
  Step-IsOrdered v (push_waits i a at e) = record { bounded = v.bounded; in_order = v.in_order }
  Step-IsOrdered {s} v (push_ends i a queue' at e) =
      let (same, room) = push_section-some a s.queue queue' v.bounded e in
      record {
        bounded = room;
        in_order =
            ap (λ t. t ++ (a ∷ [])) v.in_order
            ∙ append_assoc s.popped s.queue (a ∷ [])
            ∙ ap (λ t. s.popped ++ t) (sym same);
      }
  Step-IsOrdered v (pop_waits i at e) = record { bounded = v.bounded; in_order = v.in_order }
  Step-IsOrdered v (pop_fails i at e) = record { bounded = v.bounded; in_order = v.in_order }
  Step-IsOrdered {s} v (pop_ends i a queue' at e) =
      let same = pop_section-takes s.done s.queue a queue' e in
      record {
        bounded = omega (arith, ap length same, v.bounded);
        in_order =
            v.in_order ∙ ap (λ t. s.popped ++ t) same ∙ sym (append_assoc s.popped (a ∷ []) queue');
      }
  Step-IsOrdered v (push_stirs i a at) = record { bounded = v.bounded; in_order = v.in_order }
  Step-IsOrdered v (pop_stirs i at) = record { bounded = v.bounded; in_order = v.in_order }
  Step-IsOrdered v set_done = record { bounded = v.bounded; in_order = v.in_order }

  -- In every state that the threads can reach the queue holds at most its largest number of data,
  -- and the data pushed are the data popped and those in the queue, in this order.
  pub Reachable-IsOrdered : {s : Mq A} → Reachable most s → IsOrdered s
  unfolding new_mq
  Reachable-IsOrdered start = record { bounded = omega arith; in_order = refl }
  Reachable-IsOrdered (step r st) = Step-IsOrdered (Reachable-IsOrdered r) st
