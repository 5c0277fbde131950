-- ===== src/Ssl/Channel.antt =====
-- A connection as a queue of messages: `SendData` at one end, `ReceiveData` at the other.
use my_codebase.Base.{
  ℕ, ◌<◌, ◌^◌, ◌≡◌, refl, ap, List, [], ◌∷◌, ◌++◌, length, Option, none, some, Bool, true, false,
  ◌⊎◌, inl, inr, ◌>>=◌,
}
use my_codebase.Ssl.Transfer.{Connection, send_data, receive_data}
use my_codebase.Ssl.Records.{IsConnection, Carries}
use my_codebase.Ssl.Send.{Sent, sent, send_breaks, send_data-Sent}
use my_codebase.Ssl.Receive.{Received, received, receive_breaks, receive_data-Received}

pub data Op : Type 0 where
  put_message : List ℕ → Op
  take_message : Op

-- The abstract queue: the messages taken and those that are left. Nothing is taken from an empty
-- queue.
unfoldable pub replay : List Op → List (List ℕ) → Option (List (List ℕ) × List (List ℕ))
replay [] q = some ([], q)
replay (put_message m ∷ ops) q = replay ops (q ++ (m ∷ []))
replay (take_message ∷ ops) [] = none
replay (take_message ∷ ops) (m ∷ q) = do r ← replay ops q; some (m ∷ r.0, r.1)

abbrev after_send :
    {W : Type 0}
    → (W → Option (Bool × List (List ℕ) × W))
    → Option (Bool × W)
    → Option (Bool × List (List ℕ) × W)
after_send next none = none
after_send next (some (false, w)) = some (false, [], w)
after_send next (some (true, w)) = next w

abbrev after_receive :
    {W : Type 0}
    → (W → Option (Bool × List (List ℕ) × W))
    → Option (Bool × ℕ × List ℕ × W)
    → Option (Bool × List (List ℕ) × W)
after_receive next none = none
after_receive next (some (false, size, part, w)) = some (false, [], w)
after_receive next (some (true, size, msg, w)) = do r ← next w; some (r.0, msg ∷ r.1, r.2)

-- The calls one after the other, up to the first that returns false: the messages received.
unfoldable pub run_calls :
    (k : Connection) → List Op → k.World → Option (Bool × List (List ℕ) × k.World)
run_calls k [] w = some (true, [], w)
run_calls k (put_message m ∷ ops) w = after_send (λ w'. run_calls k ops w') (send_data k m w)
run_calls k (take_message ∷ ops) w = after_receive (λ w'. run_calls k ops w') (receive_data k 0 w)

abbrev pub AllShort : List Op → Type 0
AllShort [] = Unit {0}
AllShort (put_message m ∷ ops) = (length m < 2 ^ 32) × AllShort ops
AllShort (take_message ∷ ops) = AllShort ops

-- A call of OpenSSL failed and left this, or the connection was shut down after it.
abbrev pub FailedInto : (k : Connection) → k.World → Type 0
FailedInto k w' =
    ((bytes : List ℕ) × (w₁ : k.World) × (k.write bytes w₁ ≡ (none, w')))
    ⊎ ((n : ℕ) × (w₁ w₂ : k.World) × (k.read n w₁ ≡ (none, w₂))
        × ((w' ≡ w₂) ⊎ (w' ≡ k.shutdown w₂)))

-- How the calls compare with the queue: they did what it does, or some of them did and the next
-- met a failure of OpenSSL.
pub data Refines (k : Connection) (law : IsConnection k) (q : List (List ℕ)) (ops : List Op)
    : Option (Bool × List (List ℕ) × k.World) → Type 0 where
  agrees :
      (outs q' : List (List ℕ)) (w' : k.World)
      → replay ops q ≡ some (outs, q')
      → Carries q' (law.records w')
      → Refines k law q ops (some (true, outs, w'))
  stops :
      (past left : List Op) (outs q' : List (List ℕ)) (w' : k.World)
      → ops ≡ past ++ left
      → replay past q ≡ some (outs, q')
      → FailedInto k w'
      → Refines k law q ops (some (false, outs, w'))

module _ (k : Connection) (law : IsConnection k) where
  put-Refines :
      (q : List (List ℕ)) (m : List ℕ) (ops : List Op) (r : Option (Bool × List (List ℕ) × k.World))
      → Refines k law (q ++ (m ∷ [])) ops r
      → Refines k law q (put_message m ∷ ops) r
  unfolding replay
  put-Refines q m ops r (agrees outs q' w' e rest) = agrees outs q' w' e rest
  put-Refines q m ops r (stops past left outs q' w' e e' failed) =
      stops (put_message m ∷ past) left outs q' w' (ap (λ t. put_message m ∷ t) e) e' failed

  take-Refines :
      (q : List (List ℕ)) (m : List ℕ) (ops : List Op) (r : Option (Bool × List (List ℕ) × k.World))
      → Refines k law q ops r
      → Refines k law (m ∷ q) (take_message ∷ ops) (r >>= λ t. some (t.0, m ∷ t.1, t.2))
  unfolding replay
  take-Refines q m ops r (agrees outs q' w' e rest) = agrees (m ∷ outs) q' w' (rw e) rest
  take-Refines q m ops r (stops past left outs q' w' e e' failed) =
      stops (take_message ∷ past) left (m ∷ outs) q' w' (ap (λ t. take_message ∷ t) e) (rw e')
        failed

  after_send-Refines :
      (q : List (List ℕ)) (m : List ℕ) (ops : List Op) (r : Option (Bool × k.World))
      → Sent k law q m r
      → ((w' : k.World)
          → Carries (q ++ (m ∷ [])) (law.records w')
          → Refines k law (q ++ (m ∷ [])) ops (run_calls k ops w'))
      → Refines k law q (put_message m ∷ ops) (after_send (λ w'. run_calls k ops w') r)
  unfolding replay
  after_send-Refines q m ops r (sent w' rest) go = put-Refines q m ops _ (go w' rest)
  after_send-Refines q m ops r (send_breaks bytes w₁ w₂ e) go =
      stops [] (put_message m ∷ ops) [] q w₂ refl refl (inl (bytes, w₁, e))

  after_receive-Refines :
      (q : List (List ℕ)) (ops : List Op) (r : Option (Bool × ℕ × List ℕ × k.World))
      → Received k law q 0 r
      → ((q' : List (List ℕ)) (w' : k.World)
          → Carries q' (law.records w')
          → Refines k law q' ops (run_calls k ops w'))
      → Refines k law q (take_message ∷ ops) (after_receive (λ w'. run_calls k ops w') r)
  unfolding replay
  after_receive-Refines q ops r (received msg q' w' e rest) go =
      rw e (take-Refines q' msg ops _ (go q' w' rest))
  after_receive-Refines q ops r (receive_breaks n w₁ w₂ part w₃ e last) go =
      stops [] (take_message ∷ ops) [] q w₃ refl refl (inr (n, w₁, w₂, e, last))

  -- For an OpenSSL that carries bytes in records as it documents, and messages shorter than `2 ^
  -- 32` bytes: any sequence of calls of `SendData` and `ReceiveData` comes to an end and does what
  -- a queue of messages does, the oldest message received first and whole; or it stops at a call
  -- that returned false, the messages received until then are the queue's, and the state is what a
  -- failed call of OpenSSL left, or the shutdown after it.
  pub run_calls-Refines :
      (ops : List Op) (q : List (List ℕ)) (w : k.World)
      → AllShort ops
      → Carries q (law.records w)
      → Refines k law q ops (run_calls k ops w)
  unfolding run_calls replay
  run_calls-Refines [] q w short on_way = agrees [] q w refl on_way
  run_calls-Refines (put_message m ∷ ops) q w short on_way =
      after_send-Refines q m ops (send_data k m w) (send_data-Sent k law q m w short.0 on_way)
        (λ w' rest. run_calls-Refines ops (q ++ (m ∷ [])) w' short.1 rest)
  run_calls-Refines (take_message ∷ ops) q w short on_way =
      after_receive-Refines q ops (receive_data k 0 w) (receive_data-Received k law q 0 w on_way)
        (λ q' w' rest. run_calls-Refines ops q' w' short rest)
