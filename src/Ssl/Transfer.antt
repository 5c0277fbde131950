-- ===== src/Ssl/Transfer.antt =====
-- `SSLConnection::SendData` and `SSLConnection::ReceiveData`, which frame a message by its length.
use my_codebase.Base.{
  ℕ, zero, suc, ◌+◌, ◌-◌, ◌%◌, ◌^◌, ltb, if◌then◌else◌, List, [], ◌++◌, length, drop, Option, none,
  some, Bool, true, false,
}
use my_codebase.Memory.{u32_bytes, of_bytes}

-- OpenSSL's side of one connection. `none` is a result of `SSL_write` or `SSL_read` that is not
-- positive, `is_zero_return` whether `SSL_get_error` then names a peer that has closed.
pub record Connection : Type 1 where
  pub World : Type 0
  pub write : List ℕ → World → Option ℕ × World
  pub read : ℕ → World → Option (List ℕ) × World
  pub is_zero_return : World → Bool
  pub shutdown : World → World

-- The test of `write_stat`, and what comes after it.
unfoldable pub unless_failed :
    {W : Type 0} → (ℕ → W → Option (Bool × W)) → Option ℕ × W → Option (Bool × W)
unless_failed next (none, w) = some (false, w)
unless_failed next (some n, w) = next n w

-- The loop of `SendData`; `none` is no rounds left.
unfoldable pub send_data_loop :
    (k : Connection) → ℕ → List ℕ → ℕ → k.World → Option (Bool × k.World)
send_data_loop k zero bytes current_send_size w = none
send_data_loop k (suc rounds) bytes current_send_size w =
    if ltb current_send_size (length bytes)
    then unless_failed (λ n w'. send_data_loop k rounds bytes ((current_send_size + n) % 2 ^ 32) w')
        (k.write (drop current_send_size bytes) w)
    else some (true, w)

-- `SendData(ssl_conn, data, size)` of a buffer of `size` bytes.
unfoldable pub send_data : (k : Connection) → List ℕ → k.World → Option (Bool × k.World)
send_data k bytes w =
    unless_failed (λ _ w'. send_data_loop k (suc (length bytes)) bytes 0 w')
      (k.write (u32_bytes (length bytes)) w)

-- The test of `read_stat` in the loop, and what comes after it.
unfoldable pub unless_ended :
    {W : Type 0}
    → List ℕ
    → (List ℕ → W → Option (Bool × List ℕ × W))
    → Option (List ℕ) × W
    → Option (Bool × List ℕ × W)
unless_ended got next (none, w) = some (false, got, w)
unless_ended got next (some bytes, w) = next (got ++ bytes) w

-- The loop of `ReceiveData`: `data` holds `got`, as many bytes as `current_recv_size` says.
unfoldable pub receive_data_loop :
    (k : Connection) → ℕ → ℕ → List ℕ → k.World → Option (Bool × List ℕ × k.World)
receive_data_loop k zero msg_size got w = none
receive_data_loop k (suc rounds) msg_size got w =
    if ltb (length got) msg_size
    then unless_ended got (λ got' w'. receive_data_loop k rounds msg_size got' w')
        (k.read (msg_size - length got) w)
    else some (true, got, w)

-- What the caller sees: the result, `recv_size`, which is set at the end only, and the buffer.
unfoldable pub report :
    {W : Type 0} → ℕ → ℕ → Option (Bool × List ℕ × W) → Option (Bool × ℕ × List ℕ × W)
report old msg_size none = none
report old msg_size (some (ok, got, w)) = some (ok, if ok then msg_size else old, got, w)

-- What comes after the first `SSL_read`. `msg_size` was 0, so bytes that it did not store are 0.
unfoldable pub after_msg_size :
    (k : Connection) → ℕ → Option (List ℕ) × k.World → Option (Bool × ℕ × List ℕ × k.World)
after_msg_size k old (none, w) =
    some (false, old, [], if k.is_zero_return w then k.shutdown w else w)
after_msg_size k old (some bytes, w) =
    let msg_size = of_bytes bytes in
    report old msg_size (receive_data_loop k (suc msg_size) msg_size [] w)

-- `ReceiveData`, on the caller's `recv_size`.
unfoldable pub receive_data : (k : Connection) → ℕ → k.World → Option (Bool × ℕ × List ℕ × k.World)
receive_data k old w = after_msg_size k old (k.read 4 w)
