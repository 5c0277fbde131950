-- ===== src/BlockedMq/Stuck.antt =====
-- A thread that waits in `Pop` is woken by a push only.
use my_codebase.Base.{
  ℕ, ◌≡◌, ◌≢◌, refl, sym, ap, ◌∙◌, ◌==◌, ◌⊎◌, inl, inr, [], ◌∷◌, ◌++◌, Bool-cases, ==_iff,
}
use my_codebase.BlockedMq.{
  Thread, idle, pushing, waiting_full, popping, waiting_empty, wake_full, put, Mq, Step, call_push,
  call_pop, push_waits, push_ends, pop_waits, pop_fails, pop_ends, push_stirs, pop_stirs, set_done,
}

put_other {ℓ} :
    {A : Type ℓ} (i j : ℕ) (t : Thread A) (threads : ℕ → Thread A)
    → threads j ≢ threads i
    → put j t threads i ≡ threads i
unfolding put
put_other i j t threads apart = elim (Bool-cases (i == j)) [
  | inl e ↦ absurd (apart (ap threads (sym ((==_iff i j).0 e))))
  | inr e ↦ rw e
]

-- Another thread's move leaves a waiting thread where it is.
stays {ℓ} :
    {A : Type ℓ} (i j : ℕ) (t at : Thread A) (threads : ℕ → Thread A)
    → threads i ≡ waiting_empty
    → threads j ≡ at
    → at ≢ waiting_empty
    → put j t threads i ≡ waiting_empty
stays i j t at threads w e h = put_other i j t threads (λ same. h (sym e ∙ same ∙ w)) ∙ w

put_cases {ℓ} :
    {A : Type ℓ} (i j : ℕ) (t : Thread A) (threads : ℕ → Thread A)
    → (put j t threads i ≡ t) ⊎ (put j t threads i ≡ threads i)
unfolding put
put_cases i j t threads = elim (Bool-cases (i == j)) [ inl e ↦ inl (rw e) | inr e ↦ inr (rw e) ]

wake_full_empty {ℓ} : {A : Type ℓ} (t : Thread A) → t ≡ waiting_empty → wake_full t ≡ waiting_empty
unfolding wake_full
wake_full_empty t e = rw e

module _ {ℓ} {A : Type ℓ} (most : ℕ) where
  -- After any step a thread that waited in `Pop` waits still, or the step has pushed a datum, or
  -- it has left its wait without a notification, the queue and `_done` unchanged. The step that
  -- sets `_done` is of the first kind.
  pub waiting_empty-until :
      {s s' : Mq A} (i : ℕ)
      → s.threads i ≡ waiting_empty
      → Step most s s'
      → (s'.threads i ≡ waiting_empty)
        ⊎ ((a : A) × (s'.pushed ≡ s.pushed ++ (a ∷ [])))
        ⊎ ((s'.threads i ≡ popping) × (s'.queue ≡ s.queue) × (s'.done ≡ s.done))
  waiting_empty-until {s} i w (call_push j a at) =
      inl (stays i j (pushing a) _ s.threads w at (λ e. cc))
  waiting_empty-until {s} i w (call_pop j at) = inl (stays i j popping _ s.threads w at (λ e. cc))
  waiting_empty-until {s} i w (push_waits j a at e) =
      inl (stays i j (waiting_full a) _ s.threads w at (λ e. cc))
  waiting_empty-until i w (push_ends j a queue' at e) = inr (inl (a, refl))
  waiting_empty-until {s} i w (pop_waits j at e) =
      inl (stays i j waiting_empty _ s.threads w at (λ e. cc))
  waiting_empty-until {s} i w (pop_fails j at e) = inl (stays i j idle _ s.threads w at (λ e. cc))
  waiting_empty-until {s} i w (pop_ends j a queue' at e) =
      inl (wake_full_empty _ (stays i j idle _ s.threads w at (λ e. cc)))
  waiting_empty-until {s} i w (push_stirs j a at) =
      inl (stays i j (pushing a) _ s.threads w at (λ e. cc))
  waiting_empty-until {s} i w (pop_stirs j at) = elim (put_cases i j popping s.threads) [
    | inl woken ↦ inr (inr (woken, refl, refl))
    | inr same ↦ inl (same ∙ w)
  ]
  waiting_empty-until i w set_done = inl w
