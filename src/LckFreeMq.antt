-- ===== src/LckFreeMq.antt =====
-- include/message_queue/lck_free_mq.h: a queue over moodycamel's `ReaderWriterQueue`, and
-- include/message_queue/mq_factory.h.
pub mod Fifo
use my_codebase.Base.{
  ℕ, zero, suc, ◌==◌, ◌≡◌, refl, sym, ap, ◌∙◌, List, [], ◌∷◌, ◌++◌, drop, length, Option, none,
  some, Bool, true, false, if◌then◌else◌, inl, inr, Bool-cases,
}
use my_codebase.Process.{Outcome, returned, exited, call-cases, result-cases}
use my_codebase.BlockedMq
use my_codebase.BlockedMq.{Mq, new_mq}

-- The queue of the library, for one producer and one consumer.
pub record ReaderWriterQueue (A : Type 0) : Type 1 where
  pub Queue : Type 0
  pub new_queue : ℕ → Queue
  pub try_enqueue : A → Queue → Bool × Queue
  pub try_dequeue : Queue → Option A × Queue
  pub size_approx : Queue → ℕ

pub record LckFreeMq (Queue : Type 0) : Type 0 where
  pub lock_free_queue : Queue
  pub max_queue_size : ℕ

module _ {A : Type 0} (k : ReaderWriterQueue A) where
  unfoldable pub new_lck_free_mq : ℕ → LckFreeMq k.Queue
  new_lck_free_mq max_queue_size = record {
    lock_free_queue = k.new_queue max_queue_size;
    max_queue_size = max_queue_size;
  }

  -- One turn of the loop in `Push`: whether it ends, and the queue then.
  unfoldable pub try_push : A → k.Queue → Bool × k.Queue
  try_push a q = k.try_enqueue a q

  -- `Pop`; `none` is false, which leaves the caller's variable.
  unfoldable pub pop_front : k.Queue → Option A × k.Queue
  pop_front q = k.try_dequeue q

  unfoldable pub has_none : k.Queue → Bool
  has_none q = if k.size_approx q == 0 then true else false

  -- `~LckFreeMQ()`
  unfoldable pub delete_lck_free_mq : k.Queue → Outcome k.Queue
  delete_lck_free_mq q = if has_none q then returned q else exited

  -- What `CreateMQ` makes.
  pub data AnyMq : Type 0 where
    blocked : Mq A → ℕ → AnyMq
    lck_free : LckFreeMq k.Queue → AnyMq

  unfoldable pub create_mq : ℕ → ℕ → Outcome AnyMq
  create_mq type max_queue_size =
      if type == 0
      then returned (blocked new_mq max_queue_size)
      else if type == 1
      then returned (lck_free (new_lck_free_mq max_queue_size))
      else exited

  -- The object with the data of all finished calls in order, between two steps of its producer
  -- and its consumer.
  pub record QueueState : Type 0 where
    pub queue : k.Queue
    pub pushed : List A
    pub popped : List A

  unfoldable pub start_state : ℕ → QueueState
  start_state max_queue_size = record {
    queue = (new_lck_free_mq max_queue_size).lock_free_queue;
    pushed = [];
    popped = [];
  }

  -- `Push` tries again, or returns true; `Pop` returns true with a datum, or false.
  pub data QueueStep (s : QueueState) : QueueState → Type 0 where
    push_again :
        (a : A) (q' : k.Queue)
        → try_push a s.queue ≡ (false, q')
        → QueueStep s (record s { queue = q' })
    push_returns :
        (a : A) (q' : k.Queue)
        → try_push a s.queue ≡ (true, q')
        → QueueStep s (record s { queue = q'; pushed = s.pushed ++ (a ∷ []) })
    pop_returns :
        (a : A) (q' : k.Queue)
        → pop_front s.queue ≡ (some a, q')
        → QueueStep s (record s { queue = q'; popped = s.popped ++ (a ∷ []) })
    pop_fails :
        (q' : k.Queue) → pop_front s.queue ≡ (none, q') → QueueStep s (record s { queue = q' })

  pub data QueueReachable (max_queue_size : ℕ) : QueueState → Type 0 where
    starts : QueueReachable max_queue_size (start_state max_queue_size)
    steps :
        (s s' : QueueState)
        → QueueReachable max_queue_size s
        → QueueStep s s'
        → QueueReachable max_queue_size s'

  -- What the library documents: a list of items, the oldest first.
  pub record IsQueue : Type 0 where
    pub items : k.Queue → List A
    pub fresh : (n : ℕ) → items (k.new_queue n) ≡ []
    pub enqueued :
        (a : A) (q q' : k.Queue) → k.try_enqueue a q ≡ (true, q') → items q' ≡ items q ++ (a ∷ [])
    pub not_enqueued :
        (a : A) (q q' : k.Queue) → k.try_enqueue a q ≡ (false, q') → items q' ≡ items q
    pub dequeued :
        (a : A) (q q' : k.Queue) → k.try_dequeue q ≡ (some a, q') → items q ≡ a ∷ items q'
    pub not_dequeued : (q q' : k.Queue) → k.try_dequeue q ≡ (none, q') → items q' ≡ items q
    pub counted : (q : k.Queue) → k.size_approx q ≡ length (items q)
