-- ===== src/Socket.antt =====
-- src/network/socket.cc: `Socket::Send` and `Socket::Recv`, which frame a message by its length;
-- Setup has the rest.
pub mod Send
pub mod Recv
pub mod Setup
use my_codebase.Base.{
  ℕ, zero, suc, ◌+◌, ◌-◌, ◌^◌, ◌≤◌, ◌==◌, ltb, if◌then◌else◌, List, [], ◌++◌, length, take, drop,
  Option, none, some, Bool, true, false, leb, u32, u64, ◌||◌, ◌≡◌, ◌⊎◌, ◌>>=◌,
}
use my_codebase.Memory.{u64_bytes, of_bytes}

-- The kernel's side of `write` and `close`. `sent` is what the peer will read.
pub record Sink : Type 1 where
  pub World : Type 0
  pub sent : World → List ℕ
  pub write : World → List ℕ → Option ℕ × World
  pub close : World → World

-- The kernel's side of `read` and `close`: the bytes that arrive, none of them at the end of the
-- stream, or an error. `incoming` is what the peer has sent and this side has not read.
pub record Source : Type 1 where
  pub World : Type 0
  pub incoming : World → List ℕ
  pub read : World → ℕ → Option (List ℕ) × World
  pub close : World → World

-- A result of `read` or `write` that is not -1, in the `int` that the code keeps it in: whether it
-- is negative there, whether it is -1, and the number that adding it to a `size_t` adds.
abbrev pub int_negative : ℕ → Bool
int_negative n = leb (2 ^ 31) (u32 n)

abbrev pub int_fails : ℕ → Bool
int_fails n = u32 n == 2 ^ 32 - 1

abbrev pub int_to_size : ℕ → ℕ
int_to_size n = if int_negative n then u32 n + (2 ^ 64 - 2 ^ 32) else u32 n

-- The loop of `Send` and the test after it; `none` is no rounds left.
unfoldable pub send_loop : (k : Sink) → ℕ → List ℕ → ℕ → k.World → Option (Bool × k.World)
send_loop k zero buf finish_size w = none
send_loop k (suc rounds) buf finish_size w =
    let wrote = k.write w (drop finish_size buf) in
    if ltb finish_size (length buf)
    then (elim wrote.0 [
      | none ↦ some (false, k.close wrote.1)
      | some n ↦ elim (int_fails n) [
        | true ↦ some (false, k.close wrote.1)
        | false ↦ send_loop k rounds buf (u64 (finish_size + int_to_size n)) wrote.1
      ]
    ])
    else if finish_size == length buf
    then some (true, w)
    else some (false, k.close w)

-- `Send(buf, send_size)` of a buffer of `send_size` bytes.
unfoldable pub send : (k : Sink) → ℕ → List ℕ → k.World → Option (Bool × k.World)
send k rounds buf w =
    let wrote = k.write w (u64_bytes (length buf)) in
    elim wrote.0 [
      | none ↦ some (false, k.close wrote.1)
      | some n ↦ elim (int_fails n) [
        | true ↦ some (false, k.close wrote.1)
        | false ↦ send_loop k rounds buf 0 wrote.1
      ]
    ]

-- The loop of `Recv` and the test after it: the bytes that `buf` holds so far are `got`, and
-- `recv_size` is their number.
unfoldable pub recv_loop :
    (k : Source) → ℕ → ℕ → List ℕ → k.World → Option (Bool × List ℕ × k.World)
recv_loop k zero exp_recv_size got w = none
recv_loop k (suc rounds) exp_recv_size got w =
    let arrived = k.read w (exp_recv_size - length got) in
    if ltb (length got) exp_recv_size
    then (elim arrived.0 [
      | none ↦ some (false, got, k.close arrived.1)
      | some bytes ↦ elim (int_negative (length bytes) || u32 (length bytes) == 0) [
        | true ↦ some (false, got, k.close arrived.1)
        | false ↦
            recv_loop k rounds exp_recv_size (got ++ take (u32 (length bytes)) bytes) arrived.1
      ]
    ])
    else if length got == exp_recv_size
    then some (true, got, w)
    else some (false, got, k.close w)

-- What `exp_recv_size` holds after the first `read`, which may store fewer bytes than it has.
unfoldable pub size_after : ℕ → Option (List ℕ) → ℕ
size_after old none = old
size_after old (some bytes) = of_bytes (bytes ++ drop (length bytes) (u64_bytes old))

-- `read_byte_num == 0`.
unfoldable pub is_end_of_stream : Option (List ℕ) → Bool
is_end_of_stream none = false
is_end_of_stream (some bytes) = u32 (length bytes) == 0

-- `Recv`, on the caller's `exp_recv_size`: what it returns, that variable and the buffer after it.
unfoldable pub recv : (k : Source) → ℕ → ℕ → k.World → Option (Bool × ℕ × List ℕ × k.World)
recv k rounds old w =
    let arrived = k.read w 8 in
    let size = size_after old arrived.0 in
    if is_end_of_stream arrived.0
    then some (false, size, [], k.close arrived.1)
    else if size == 0
    then some (false, size, [], k.close arrived.1)
    else do r ← recv_loop k rounds size [] arrived.1; some (r.0, size, r.1, r.2)
