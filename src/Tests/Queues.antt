-- ===== src/Tests/Queues.antt =====
-- The lock-free queue over a list that holds at most two items.
use my_codebase.Base.{
  ℕ, arith, ◌≡◌, ◌↔◌, refl, sym, ap, ltb, List, [], ◌∷◌, ◌++◌, length, Option, some, none, Bool,
  true, false,
}
use my_codebase.Process.{returned}
use my_codebase.LckFreeMq.{
  ReaderWriterQueue, new_lck_free_mq, delete_lck_free_mq, QueueState, start_state, QueueReachable,
  starts, steps, push_returns, IsQueue, try_push, has_none, pop_front,
}
use my_codebase.MqTest.{
  Message, input_msg, messages, Reader, at_done, at_is_empty, at_pop, finished, TestState,
  first_state, TestReachable, sets_done, sees_done, sees_some, sees_empty, pops, pop_fails,
  starts as starts_test, steps as steps_to, push_returns as push_one,
}
use my_codebase.MqTest.Received.{finished-received}
use my_codebase.LckFreeMq.Fifo.{delete_lck_free_mq_iff}

abbrev put_in : {A : Type 0} → Bool → A → List A → Bool × List A
put_in true a q = (true, q ++ (a ∷ []))
put_in false a q = (false, q)

abbrev take_out : {A : Type 0} → List A → Option A × List A
take_out [] = (none, [])
take_out (a ∷ q) = (some a, q)

abbrev two_places : (A : Type 0) → ReaderWriterQueue A
two_places A = record {
  Queue = List A;
  new_queue = λ n. [];
  try_enqueue = λ a q. put_in (ltb (length q) 2) a q;
  try_dequeue = take_out;
  size_approx = λ q. length q;
}

put_in_works :
    {A : Type 0} (b : Bool) (a : A) (q q' : List A) → put_in b a q ≡ (true, q') → q' ≡ q ++ (a ∷ [])
put_in_works true a q q' e = ap (λ t. t.1) (sym e)
put_in_works false a q q' e = let never : false ≡ true = ap (λ t. t.0) e in cc

put_in_fails : {A : Type 0} (b : Bool) (a : A) (q q' : List A) → put_in b a q ≡ (false, q') → q' ≡ q
put_in_fails true a q q' e = let never : true ≡ false = ap (λ t. t.0) e in cc
put_in_fails false a q q' e = ap (λ t. t.1) (sym e)

-- The first item of a queue.
abbrev with_item : {A : Type 0} → Option A × List A → List A
with_item (none, q) = q
with_item (some a, q) = a ∷ q

take_out_works : {A : Type 0} (a : A) (q q' : List A) → take_out q ≡ (some a, q') → q ≡ a ∷ q'
take_out_works a [] q' e = ap with_item e
take_out_works a (b ∷ q) q' e = ap with_item e

take_out_fails : {A : Type 0} (q q' : List A) → take_out q ≡ (none, q') → q' ≡ q
take_out_fails [] q' e = ap (λ t. t.1) (sym e)
take_out_fails (b ∷ q) q' e = cc

abbrev two_places-IsQueue : (A : Type 0) → IsQueue (two_places A)
two_places-IsQueue A = record {
  items = λ q. q;
  fresh = λ n. refl;
  enqueued = λ a q q' e. put_in_works (ltb (length q) 2) a q q' e;
  not_enqueued = λ a q q' e. put_in_fails (ltb (length q) 2) a q q' e;
  dequeued = take_out_works;
  not_dequeued = take_out_fails;
  counted = λ q. refl;
}

abbrev one_pushed : QueueState (two_places ℕ)
one_pushed = record { queue = 7 ∷ []; pushed = 7 ∷ []; popped = [] }

one_reached : QueueReachable (two_places ℕ) 2 one_pushed
unfolding start_state new_lck_free_mq try_push
one_reached = steps (start_state (two_places ℕ) 2) one_pushed starts (push_returns 7 (7 ∷ []) refl)

delete_example :
    (one_pushed.pushed ≡ one_pushed.popped ++ one_pushed.queue)
    × ((delete_lck_free_mq (two_places ℕ) one_pushed.queue ≡ returned one_pushed.queue)
        ↔ (one_pushed.pushed ≡ one_pushed.popped))
delete_example =
    delete_lck_free_mq_iff (two_places ℕ) (two_places-IsQueue ℕ) 2 one_pushed one_reached

abbrev TestAt : Type 0
TestAt = TestState (two_places Message) 1

abbrev queue_test : List Message → Bool → Reader → List Message → TestAt
queue_test queue is_done reader received = record {
  queue = queue;
  is_done = is_done;
  sent = 1;
  reader = reader;
  received = received;
}

abbrev one_message : List Message
one_message = input_msg 0 ∷ []

abbrev Reached : TestAt → Type 0
Reached = TestReachable (two_places Message) 1 2

has_done : Reached (queue_test one_message true at_done [])
unfolding first_state new_lck_free_mq try_push
has_done =
    steps_to (queue_test one_message false at_done []) _
      (steps_to (first_state (two_places Message) 1 2) _ starts_test
        (push_one one_message (omega arith) refl))
      (sets_done refl)

has_popped : Reached (queue_test [] true at_done one_message)
unfolding has_none pop_front
has_popped =
    steps_to (queue_test one_message true (at_pop false) []) _
      (steps_to (queue_test one_message true at_is_empty []) _
        (steps_to (queue_test one_message true at_done []) _ has_done (sees_done refl refl))
        (sees_some refl refl))
      (pops false (input_msg 0) [] refl refl)

has_finished : Reached (queue_test [] true finished one_message)
unfolding has_none pop_front
has_finished =
    steps_to (queue_test [] true (at_pop true) one_message) _
      (steps_to (queue_test [] true at_is_empty one_message) _
        (steps_to (queue_test [] true at_done one_message) _ has_popped (sees_done refl refl))
        (sees_empty refl refl))
      (pop_fails true [] refl refl)

finished_example :
    (one_message ≡ messages 1) × (delete_lck_free_mq (two_places Message) [] ≡ returned [])
finished_example =
    finished-received (two_places Message) (two_places-IsQueue Message) 1 2
      (queue_test [] true finished one_message) has_finished refl
