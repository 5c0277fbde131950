-- ===== src/MqTest.antt =====
-- src/app/mq_test.cc on the lock-free queue: one thread pushes numbered messages, the other pops
-- until it has seen that all are done.
pub mod Received
use my_codebase.Base.{
  ℕ, zero, suc, ◌+◌, ◌<◌, ◌≡◌, Bool, true, false, List, [], ◌∷◌, ◌++◌, Option, none, some,
}
use my_codebase.LckFreeMq.{ReaderWriterQueue, new_lck_free_mq, try_push, pop_front, has_none}

pub record Message : Type 0 where
  pub x : ℕ
  pub y : ℕ

abbrev pub input_msg : ℕ → Message
input_msg i = record { x = i; y = i }

-- The first messages that the first thread pushes.
abbrev pub messages : ℕ → List Message
messages zero = []
messages (suc i) = messages i ++ (input_msg i ∷ [])

-- Where the second thread stands: before it reads `_done`, before `IsEmpty`, before `Pop` with the
-- value of `job_done_flag`, and after its loop.
pub data Reader : Type 0 where
  at_done : Reader
  at_is_empty : Reader
  at_pop : Bool → Reader
  finished : Reader

-- The end of a turn of the loop.
abbrev pub after_pop : Bool → Reader
after_pop true = finished
after_pop false = at_done

-- The threads write to `n` messages: `queue_size * 4` in the program.
module _ (k : ReaderWriterQueue Message) (n : ℕ) where
  -- The queue, `_done`, the variable `i` of the first thread, and what the second one does and has.
  pub record TestState : Type 0 where
    pub queue : k.Queue
    pub is_done : Bool
    pub sent : ℕ
    pub reader : Reader
    pub received : List Message

  unfoldable pub first_state : ℕ → TestState
  first_state queue_size = record {
    queue = (new_lck_free_mq k queue_size).lock_free_queue;
    is_done = false;
    sent = 0;
    reader = at_done;
    received = [];
  }

  pub data TestStep (s : TestState) : TestState → Type 0 where
    -- RunTh1
    push_again :
        (q' : k.Queue)
        → s.sent < n
        → try_push k (input_msg s.sent) s.queue ≡ (false, q')
        → TestStep s (record s { queue = q' })
    push_returns :
        (q' : k.Queue)
        → s.sent < n
        → try_push k (input_msg s.sent) s.queue ≡ (true, q')
        → TestStep s (record s { queue = q'; sent = s.sent + 1 })
    sets_done : s.sent ≡ n → TestStep s (record s { is_done = true })
    -- RunTh2
    sees_not_done :
        s.reader ≡ at_done → s.is_done ≡ false → TestStep s (record s { reader = at_pop false })
    sees_done :
        s.reader ≡ at_done → s.is_done ≡ true → TestStep s (record s { reader = at_is_empty })
    sees_empty :
        s.reader ≡ at_is_empty
        → has_none k s.queue ≡ true
        → TestStep s (record s { reader = at_pop true })
    sees_some :
        s.reader ≡ at_is_empty
        → has_none k s.queue ≡ false
        → TestStep s (record s { reader = at_pop false })
    pops :
        (job_done_flag : Bool) (tmp_msg : Message) (q' : k.Queue)
        → s.reader ≡ at_pop job_done_flag
        → pop_front k s.queue ≡ (some tmp_msg, q')
        → TestStep s (record s {
          queue = q';
          reader = after_pop job_done_flag;
          received = s.received ++ (tmp_msg ∷ []);
        })
    pop_fails :
        (job_done_flag : Bool) (q' : k.Queue)
        → s.reader ≡ at_pop job_done_flag
        → pop_front k s.queue ≡ (none, q')
        → TestStep s (record s { queue = q'; reader = after_pop job_done_flag })

  pub data TestReachable (queue_size : ℕ) : TestState → Type 0 where
    starts : TestReachable queue_size (first_state queue_size)
    steps :
        (s s' : TestState)
        → TestReachable queue_size s
        → TestStep s s'
        → TestReachable queue_size s'
