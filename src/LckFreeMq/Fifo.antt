-- ===== src/LckFreeMq/Fifo.antt =====
-- What is pushed is popped in order, and only an empty queue is destroyed.
use my_codebase.Base.{
  ℕ, ◌==◌, ==_iff, ◌≡◌, ◌↔◌, sym, ap, ◌∙◌, List, [], ◌∷◌, ◌++◌, length, length-append, append_assoc,
  append-nil, true, false, drop_all, Bool-cases, inl, inr, arith,
}
use my_codebase.Process.{returned, exited}
use my_codebase.LckFreeMq.{
  ReaderWriterQueue, new_lck_free_mq, try_push, pop_front, has_none, delete_lck_free_mq, QueueState,
  start_state, QueueStep, push_again, push_returns, pop_returns, pop_fails, QueueReachable, starts,
  steps, IsQueue,
}

module _ {A : Type 0} (k : ReaderWriterQueue A) (law : IsQueue k) (max_queue_size : ℕ) where
  abbrev IsFifo : QueueState k → Type 0
  IsFifo s = s.pushed ≡ s.popped ++ law.items s.queue

  QueueStep-IsFifo : (s s' : QueueState k) → IsFifo s → QueueStep k s s' → IsFifo s'
  unfolding try_push pop_front
  QueueStep-IsFifo s s' h (push_again a q' e) =
      h ∙ ap (λ t. s.popped ++ t) (sym (law.not_enqueued a s.queue q' e))
  QueueStep-IsFifo s s' h (push_returns a q' e) =
      ap (λ t. t ++ (a ∷ [])) h
      ∙ append_assoc s.popped (law.items s.queue) (a ∷ [])
      ∙ ap (λ t. s.popped ++ t) (sym (law.enqueued a s.queue q' e))
  QueueStep-IsFifo s s' h (pop_returns a q' e) =
      h
      ∙ ap (λ t. s.popped ++ t) (law.dequeued a s.queue q' e)
      ∙ sym (append_assoc s.popped (a ∷ []) (law.items q'))
  QueueStep-IsFifo s s' h (pop_fails q' e) =
      h ∙ ap (λ t. s.popped ++ t) (sym (law.not_dequeued s.queue q' e))

  Reachable-IsFifo : (s : QueueState k) → QueueReachable k max_queue_size s → IsFifo s
  unfolding start_state new_lck_free_mq
  Reachable-IsFifo s starts = sym (law.fresh max_queue_size)
  Reachable-IsFifo s (steps s₁ s₂ r m) = QueueStep-IsFifo s₁ s₂ (Reachable-IsFifo s₁ r) m

  nothing_left : (xs ys : List A) → xs ≡ xs ++ ys → ys ≡ []
  nothing_left xs ys e = drop_all 0 ys (omega (arith, length-append xs ys, ap length e))

  pub has_none-empty : (q : k.Queue) → has_none k q ≡ true → law.items q ≡ []
  unfolding has_none
  has_none-empty q e = elim (Bool-cases (k.size_approx q == 0)) [
    | inl none_left ↦
        drop_all 0 (law.items q)
          (omega (arith, law.counted q, (==_iff (k.size_approx q) 0).0 none_left))
    | inr some_left ↦ let never : false ≡ true = rw some_left at e in cc
  ]

  only_empty : (q : k.Queue) → delete_lck_free_mq k q ≡ returned q → law.items q ≡ []
  unfolding delete_lck_free_mq
  only_empty q e = elim (Bool-cases (has_none k q)) [
    | inl none_left ↦ has_none-empty q none_left
    | inr some_left ↦ let never : exited ≡ returned q = rw some_left at e in cc
  ]

  pub deletes_empty : (q : k.Queue) → law.items q ≡ [] → delete_lck_free_mq k q ≡ returned q
  unfolding delete_lck_free_mq has_none
  deletes_empty q e = rw (law.counted q, e)

  -- For a lock-free queue that does what it documents: in every state that a producer and a
  -- consumer reach by calls of `Push` and `Pop`, in any order, the data pushed are the data popped
  -- and those in the queue, in this order; and the destructor returns, and does not exit, exactly
  -- if all data pushed have been popped.
  pub delete_lck_free_mq_iff :
      (s : QueueState k)
      → QueueReachable k max_queue_size s
      → (s.pushed ≡ s.popped ++ law.items s.queue)
        × ((delete_lck_free_mq k s.queue ≡ returned s.queue) ↔ (s.pushed ≡ s.popped))
  delete_lck_free_mq_iff s r =
      let fifo = Reachable-IsFifo s r in
      (
        fifo,
        (
          λ e. fifo ∙ ap (λ t. s.popped ++ t) (only_empty s.queue e) ∙ append-nil s.popped,
          λ same.
              deletes_empty s.queue (nothing_left s.popped (law.items s.queue) (sym same ∙ fifo)),
        ),
      )
