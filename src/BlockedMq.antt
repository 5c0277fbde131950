-- ===== src/BlockedMq.antt =====
-- include/message_queue/abs_mq.h and blocked_mq.h: a bounded queue under one mutex and two
-- condition variables, as a step relation on the queue and the threads that use it.
pub mod Order
pub mod Wakeup
pub mod Stuck
use my_codebase.Base.{
  ℕ, ◌+◌, ◌==◌, if◌then◌else◌, List, [], ◌∷◌, ◌++◌, length, Option, none, some, Bool, true, false,
  ◌≡◌,
}
use my_codebase.Process.{Outcome, returned, exited}

-- Where a thread is: outside the methods, in front of the loop test of `Push` or `Pop`, or in the
-- `wait` of one of them. Between two of these points it holds the mutex, so a step is what happens
-- from one to the next.
pub data Thread {ℓ} (A : Type ℓ) : Type ℓ where
  idle : Thread A
  pushing : A → Thread A
  waiting_full : A → Thread A
  popping : Thread A
  waiting_empty : Thread A

-- From the loop test of `Push` to its `wait` (`none`) or its end: the queue then.
unfoldable pub push_section {ℓ} : {A : Type ℓ} → ℕ → A → List A → Option (List A)
push_section max_queue_size data' queue =
    if length queue == max_queue_size then none else some (queue ++ (data' ∷ []))

-- How `Pop` gets on: it waits, returns false, or returns true with the datum and the queue then.
pub data Popped {ℓ} (A : Type ℓ) : Type ℓ where
  waits : Popped A
  fails : Popped A
  takes : A → List A → Popped A

unfoldable pub pop_section {ℓ} : {A : Type ℓ} → Bool → List A → Popped A
pop_section done [] = if done then fails else waits
pop_section done (data' ∷ queue) = takes data' queue

-- `IsEmpty`.
unfoldable pub is_empty {ℓ} : {A : Type ℓ} → List A → Bool
is_empty [] = true
is_empty (x ∷ xs) = false

-- `empty_sign_.notify_all()` and `full_sign_.notify_all()`, on one thread.
unfoldable pub wake_empty {ℓ} : {A : Type ℓ} → Thread A → Thread A
wake_empty idle = idle
wake_empty (pushing a) = pushing a
wake_empty (waiting_full a) = waiting_full a
wake_empty popping = popping
wake_empty waiting_empty = popping

unfoldable pub wake_full {ℓ} : {A : Type ℓ} → Thread A → Thread A
wake_full idle = idle
wake_full (pushing a) = pushing a
wake_full (waiting_full a) = pushing a
wake_full popping = popping
wake_full waiting_empty = waiting_empty

unfoldable pub put {ℓ} : {A : Type ℓ} → ℕ → Thread A → (ℕ → Thread A) → ℕ → Thread A
put i t threads j = if j == i then t else threads j

-- The object and its threads, with the data of all finished calls in order.
pub record Mq {ℓ} (A : Type ℓ) : Type ℓ where
  pub queue : List A
  pub done : Bool
  pub threads : ℕ → Thread A
  pub pushed : List A
  pub popped : List A

-- The constructor, before any thread calls a method.
unfoldable pub new_mq {ℓ} : {A : Type ℓ} → Mq A
new_mq = record { queue = []; done = false; threads = λ i. idle; pushed = []; popped = [] }

-- The destructor, after all threads have left: a queue that holds data ends the process.
unfoldable pub delete_mq {ℓ} : {A : Type ℓ} → Mq A → Outcome (Mq A)
delete_mq s = if is_empty s.queue then returned (record s { queue = [] }) else exited

-- One thread's step. A `wait` may return without a notification, and `_done` is a public field
-- that a caller sets.
pub data Step {ℓ} {A : Type ℓ} (max_queue_size : ℕ) (s : Mq A) : Mq A → Type ℓ where
  call_push :
      (i : ℕ) (a : A)
      → s.threads i ≡ idle
      → Step max_queue_size s (record s { threads = put i (pushing a) s.threads })
  call_pop :
      (i : ℕ)
      → s.threads i ≡ idle
      → Step max_queue_size s (record s { threads = put i popping s.threads })
  push_waits :
      (i : ℕ) (a : A)
      → s.threads i ≡ pushing a
      → push_section max_queue_size a s.queue ≡ none
      → Step max_queue_size s (record s { threads = put i (waiting_full a) s.threads })
  push_ends :
      (i : ℕ) (a : A) (queue' : List A)
      → s.threads i ≡ pushing a
      → push_section max_queue_size a s.queue ≡ some queue'
      → Step max_queue_size s (record s {
        queue = queue';
        threads = λ j. wake_empty (put i idle s.threads j);
        pushed = s.pushed ++ (a ∷ []);
      })
  pop_waits :
      (i : ℕ)
      → s.threads i ≡ popping
      → pop_section s.done s.queue ≡ waits
      → Step max_queue_size s (record s { threads = put i waiting_empty s.threads })
  pop_fails :
      (i : ℕ)
      → s.threads i ≡ popping
      → pop_section s.done s.queue ≡ fails
      → Step max_queue_size s (record s { threads = put i idle s.threads })
  pop_ends :
      (i : ℕ) (a : A) (queue' : List A)
      → s.threads i ≡ popping
      → pop_section s.done s.queue ≡ takes a queue'
      → Step max_queue_size s (record s {
        queue = queue';
        threads = λ j. wake_full (put i idle s.threads j);
        popped = s.popped ++ (a ∷ []);
      })
  push_stirs :
      (i : ℕ) (a : A)
      → s.threads i ≡ waiting_full a
      → Step max_queue_size s (record s { threads = put i (pushing a) s.threads })
  pop_stirs :
      (i : ℕ)
      → s.threads i ≡ waiting_empty
      → Step max_queue_size s (record s { threads = put i popping s.threads })
  set_done : Step max_queue_size s (record s { done = true })

-- Any number of steps from the start.
pub data Reachable {ℓ} {A : Type ℓ} (max_queue_size : ℕ) : Mq A → Type ℓ where
  start : Reachable max_queue_size new_mq
  step :
      {s s' : Mq A}
      → Reachable max_queue_size s
      → Step max_queue_size s s'
      → Reachable max_queue_size s'
