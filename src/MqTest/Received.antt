-- ===== src/MqTest/Received.antt =====
-- The second thread ends only when it has all messages.
use mathlib.Core.Path.{subst}
use my_codebase.Base.{
  ℕ, suc, ◌+◌, ◌≡◌, refl, sym, ap, ◌∙◌, Bool, true, false, List, [], ◌∷◌, ◌++◌, length,
  append_assoc, append-nil, arith,
}
use my_codebase.Process.{returned}
use my_codebase.LckFreeMq.{
  ReaderWriterQueue, IsQueue, new_lck_free_mq, try_push, pop_front, delete_lck_free_mq,
}
use my_codebase.LckFreeMq.Fifo.{has_none-empty, deletes_empty}
use my_codebase.MqTest.{
  Message, input_msg, messages, Reader, at_done, at_is_empty, at_pop, finished, after_pop,
  TestState, first_state, TestStep, push_again, push_returns, sets_done, sees_not_done, sees_done,
  sees_empty, sees_some, pops, pop_fails, TestReachable, starts, steps,
}

-- What the second thread knows where it stands.
Knows : Reader → Bool → List Message → Type 0
Knows at_done is_done left = Unit
Knows at_is_empty is_done left = is_done ≡ true
Knows (at_pop true) is_done left = (is_done ≡ true) × (left ≡ [])
Knows (at_pop false) is_done left = Unit
Knows finished is_done left = (is_done ≡ true) × (left ≡ [])

-- As long as not all is done it knows nothing about the queue.
Knows-undone :
    (r : Reader) (is_done : Bool) (left left' : List Message)
    → ¬ (is_done ≡ true)
    → Knows r is_done left
    → Knows r is_done left'
unfolding Knows
Knows-undone at_done is_done left left' h k = tt
Knows-undone at_is_empty is_done left left' h k = k
Knows-undone (at_pop true) is_done left left' h k = absurd (h k.0)
Knows-undone (at_pop false) is_done left left' h k = tt
Knows-undone finished is_done left left' h k = absurd (h k.0)

Knows-done :
    (r : Reader) (is_done : Bool) (left : List Message) → Knows r is_done left → Knows r true left
unfolding Knows
Knows-done at_done is_done left k = tt
Knows-done at_is_empty is_done left k = refl
Knows-done (at_pop true) is_done left k = (refl, k.1)
Knows-done (at_pop false) is_done left k = tt
Knows-done finished is_done left k = (refl, k.1)

-- A `Pop` that fails, and one that does not, which after the flag cannot be.
Knows-failed :
    (flag is_done : Bool) (left left' : List Message)
    → left' ≡ left
    → Knows (at_pop flag) is_done left
    → Knows (after_pop flag) is_done left'
unfolding Knows
Knows-failed true is_done left left' e k = (k.0, e ∙ k.1)
Knows-failed false is_done left left' e k = tt

Knows-popped :
    (flag is_done : Bool) (m : Message) (left left' : List Message)
    → left ≡ m ∷ left'
    → Knows (at_pop flag) is_done left
    → Knows (after_pop flag) is_done left'
unfolding Knows
Knows-popped true is_done m left left' e k = absurd (omega (arith, ap length (sym e ∙ k.1)))
Knows-popped false is_done m left left' e k = tt

step_of : (i : ℕ) → i + 1 ≡ suc i
step_of i = omega arith

module _ (k : ReaderWriterQueue Message) (law : IsQueue k) (n : ℕ) where
  record IsTold (s : TestState k n) : Type 0 where
    pub fifo : messages s.sent ≡ s.received ++ law.items s.queue
    pub whole : s.is_done ≡ true → s.sent ≡ n
    pub knows : Knows s.reader s.is_done (law.items s.queue)

  first-IsTold : (queue_size : ℕ) → IsTold (first_state k n queue_size)
  unfolding Knows first_state new_lck_free_mq
  first-IsTold queue_size = record {
    fifo = sym (law.fresh queue_size);
    whole = λ e. cc;
    knows = tt;
  }

  TestStep-IsTold : (s s' : TestState k n) → IsTold s → TestStep k n s s' → IsTold s'
  unfolding Knows try_push pop_front
  TestStep-IsTold s s' v (push_again q' more e) =
      let same = law.not_enqueued (input_msg s.sent) s.queue q' e in
      record {
        fifo = v.fifo ∙ ap (λ t. s.received ++ t) (sym same);
        whole = v.whole;
        knows = subst (Knows s.reader s.is_done) (sym same) v.knows;
      }
  TestStep-IsTold s s' v (push_returns q' more e) =
      let next : messages (s.sent + 1) ≡ messages s.sent ++ (input_msg s.sent ∷ []) =
        ap messages (step_of s.sent) in
      record {
        fifo =
            next
            ∙ ap (λ t. t ++ (input_msg s.sent ∷ [])) v.fifo
            ∙ append_assoc s.received (law.items s.queue) (input_msg s.sent ∷ [])
            ∙ ap (λ t. s.received ++ t) (sym (law.enqueued (input_msg s.sent) s.queue q' e));
        whole = λ d. absurd (omega (arith, more, v.whole d));
        knows =
            Knows-undone s.reader s.is_done (law.items s.queue) (law.items q')
              (λ d. omega (arith, more, v.whole d)) v.knows;
      }
  TestStep-IsTold s s' v (sets_done all) = record {
    fifo = v.fifo;
    whole = λ e. all;
    knows = Knows-done s.reader s.is_done (law.items s.queue) v.knows;
  }
  TestStep-IsTold s s' v (sees_not_done r d) = record { fifo = v.fifo; whole = v.whole; knows = tt }
  TestStep-IsTold s s' v (sees_done r d) = record { fifo = v.fifo; whole = v.whole; knows = d }
  TestStep-IsTold s s' v (sees_empty r e) = record {
    fifo = v.fifo;
    whole = v.whole;
    knows = (rw r at v.knows, has_none-empty k law 0 s.queue e);
  }
  TestStep-IsTold s s' v (sees_some r e) = record { fifo = v.fifo; whole = v.whole; knows = tt }
  TestStep-IsTold s s' v (pops flag m q' r e) =
      let first = law.dequeued m s.queue q' e in
      record {
        fifo =
            v.fifo
            ∙ ap (λ t. s.received ++ t) first
            ∙ sym (append_assoc s.received (m ∷ []) (law.items q'));
        whole = v.whole;
        knows =
            Knows-popped flag s.is_done m (law.items s.queue) (law.items q') first
              (subst (λ t. Knows t s.is_done (law.items s.queue)) r v.knows);
      }
  TestStep-IsTold s s' v (pop_fails flag q' r e) =
      let same = law.not_dequeued s.queue q' e in
      record {
        fifo = v.fifo ∙ ap (λ t. s.received ++ t) (sym same);
        whole = v.whole;
        knows =
            Knows-failed flag s.is_done (law.items s.queue) (law.items q') same
              (subst (λ t. Knows t s.is_done (law.items s.queue)) r v.knows);
      }

  Reachable-IsTold :
      (queue_size : ℕ) (s : TestState k n) → TestReachable k n queue_size s → IsTold s
  Reachable-IsTold queue_size s starts = first-IsTold queue_size
  Reachable-IsTold queue_size s (steps s₁ s₂ r m) =
      TestStep-IsTold s₁ s₂ (Reachable-IsTold queue_size s₁ r) m

  -- For a lock-free queue that does what it documents, any size of the queue and any number of
  -- messages: in every state that the two threads reach by their steps, in any order, in which the
  -- second one has left its loop, it has received all messages of the first one in order, and the
  -- destructor of the queue returns, and does not exit.
  pub finished-received :
      (queue_size : ℕ) (s : TestState k n)
      → TestReachable k n queue_size s
      → s.reader ≡ finished
      → (s.received ≡ messages n) × (delete_lck_free_mq k s.queue ≡ returned s.queue)
  unfolding Knows
  finished-received queue_size s reached end =
      let v = Reachable-IsTold queue_size s reached in
      let (d, none_left) : (s.is_done ≡ true) × (law.items s.queue ≡ []) = rw end at v.knows in
      (
        sym (append-nil s.received)
            ∙ ap (λ t. s.received ++ t) (sym none_left)
            ∙ sym v.fifo
            ∙ ap messages (v.whole d),
        deletes_empty k law queue_size s.queue none_left,
      )
