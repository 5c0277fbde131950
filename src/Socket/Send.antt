-- ===== src/Socket/Send.antt =====
-- `Send` puts one frame on the wire.
use my_codebase.Base.{
  ℕ, zero, suc, ◌+◌, ◌≤◌, ◌<◌, ◌≡◌, refl, sym, ap, ◌∙◌, ltb, List, [], ◌++◌, length, take, drop,
  Option, none, some, Bool, true, false, inl, inr, arith, Bool-cases, append_assoc, append-nil,
  drop_all, take_all, take-append-drop, length-drop, drop-drop, u32, u64, ◌^◌, ltb→ge, ltb→lt,
}
use my_codebase.Memory.{u64_bytes, length-u64_bytes}
use my_codebase.Socket.{Sink, int_fails, int_negative, int_to_size, send_loop, send}

-- What a `write` to a blocking socket does: it fails, or it takes some of the bytes, at least one
-- if there are any. Linux moves at most 0x7ffff000 bytes in one call.
pub data Wrote (k : Sink) (w : k.World) (bytes : List ℕ) : Option ℕ × k.World → Type 0 where
  fails : (w' : k.World) → Wrote k w bytes (none, w')
  takes :
      (n : ℕ) (w' : k.World)
      → 1 ≤ n
      → n ≤ length bytes
      → n ≤ 0x7fff_f000
      → k.sent w' ≡ k.sent w ++ take n bytes
      → Wrote k w bytes (some n, w')

abbrev pub IsSink : Sink → Type 0
IsSink k = (w : k.World) (bytes : List ℕ) → 1 ≤ length bytes → Wrote k w bytes (k.write w bytes)

-- How a call ends: with all bytes on the wire, or because a `write` failed.
pub data Sends (k : Sink) (w : k.World) (bytes : List ℕ) : Option (Bool × k.World) → Type 0 where
  sends : (w' : k.World) → k.sent w' ≡ k.sent w ++ bytes → Sends k w bytes (some (true, w'))
  breaks :
      (w₁ : k.World) (left : List ℕ) (w₂ : k.World)
      → k.write w₁ left ≡ (none, w₂)
      → Sends k w bytes (some (false, k.close w₂))

module _ (k : Sink) (law : IsSink k) (buf : List ℕ) (word : length buf < 2 ^ 64) where
  loop_ends :
      (rounds finish_size : ℕ) (w : k.World)
      → length buf ≤ finish_size
      → finish_size ≤ length buf
      → send_loop k (suc rounds) buf finish_size w ≡ some (true, w)
  unfolding send_loop
  loop_ends rounds finish_size w h g = ground arith

  -- One `write`, and the loop after it.
  module _ (rounds finish_size : ℕ) (w : k.World) (h : finish_size ≤ length buf) where
    abbrev left : List ℕ
    left = drop finish_size buf

    loop_step :
        ltb finish_size (length buf) ≡ true
        → send_loop k (suc rounds) buf finish_size w ≡ elim (k.write w left).0 [
          | none ↦ some (false, k.close (k.write w left).1)
          | some n ↦ elim (int_fails n) [
            | true ↦ some (false, k.close (k.write w left).1)
            | false ↦ send_loop k rounds buf (u64 (finish_size + int_to_size n)) (k.write w left).1
          ]
        ]
    unfolding send_loop
    loop_step more = rw more

    Sends-on :
        (n : ℕ) (w' : k.World) (r : Option (Bool × k.World))
        → k.sent w' ≡ k.sent w ++ take n left
        → Sends k w' (drop (finish_size + n) buf) r
        → Sends k w left r
    Sends-on n w' r e (sends w₂ e') = sends w₂ (
        e'
        ∙ ap (λ t. t ++ drop (finish_size + n) buf) e
        ∙ append_assoc (k.sent w) (take n left) (drop (finish_size + n) buf)
        ∙ ap (λ t. k.sent w ++ (take n left ++ t)) (sym (drop-drop n finish_size buf))
        ∙ ap (λ t. k.sent w ++ t) (take-append-drop n left))
    Sends-on n w' r e (breaks w₁ rest w₂ e') = breaks w₁ rest w₂ e'

    turn :
        (r : Option ℕ × k.World)
        → k.write w left ≡ r
        → Wrote k w left r
        → ((n : ℕ) (w' : k.World)
            → 1 ≤ n
            → n ≤ length left
            → Sends k w' (drop (finish_size + n) buf) (send_loop k rounds buf (finish_size + n) w'))
        → Sends k w left (elim r.0 [
          | none ↦ some (false, k.close r.1)
          | some n ↦ elim (int_fails n) [
            | true ↦ some (false, k.close r.1)
            | false ↦ send_loop k rounds buf (u64 (finish_size + int_to_size n)) r.1
          ]
        ])
    turn r e (fails w') next = breaks w left w' e
    turn r e (takes n w' pos most few e') next =
        let small : u32 n ≡ n = omega (arith, few) in
        let fine : int_fails n ≡ false = ground (arith, small, few) in
        let positive : int_negative n ≡ false = ground (arith, small, few) in
        let sum : u64 (finish_size + n) ≡ finish_size + n =
          omega (arith, most, length-drop finish_size buf, h, word) in
        rw (fine, positive, small, sum) (Sends-on n w' _ e' (next n w' pos most))

  header_on :
      (w : k.World) (header : List ℕ) (w' : k.World) (r : Option (Bool × k.World))
      → k.sent w' ≡ k.sent w ++ header
      → Sends k w' buf r
      → Sends k w (header ++ buf) r
  header_on w header w' r e (sends w₂ e') =
      sends w₂ (e' ∙ ap (λ t. t ++ buf) e ∙ append_assoc (k.sent w) header buf)
  header_on w header w' r e (breaks w₁ rest w₂ e') = breaks w₁ rest w₂ e'

  pub send_loop-Sends :
      (rounds finish_size : ℕ) (w : k.World)
      → finish_size ≤ length buf
      → length buf < finish_size + rounds
      → Sends k w (drop finish_size buf) (send_loop k rounds buf finish_size w)
  send_loop-Sends zero finish_size w h g = absurd (omega arith)
  send_loop-Sends (suc rounds) finish_size w h g =
      let rest = drop finish_size buf in
      let size = length-drop finish_size buf in
      elim (Bool-cases (ltb finish_size (length buf))) [
        | inl more ↦ rw (loop_step rounds finish_size w h more) (
            turn rounds finish_size w h (k.write w rest) refl
              (law w rest (omega (arith, size, ltb→lt _ _ more)))
              (λ n w' pos most.
                send_loop-Sends rounds (finish_size + n) w' (omega (arith, most, size))
                  (omega (arith, pos, g))))
        | inr all ↦
            let none_left : rest ≡ [] = drop_all finish_size buf (ltb→ge _ _ all) in
            rw (loop_ends rounds finish_size w (ltb→ge _ _ all) h, none_left)
              (sends w (sym (append-nil (k.sent w))))
      ]

  after_header :
      (w : k.World) (rounds : ℕ)
      → length buf < rounds
      → (r : Option ℕ × k.World) → k.write w (u64_bytes (length buf)) ≡ r
      → Wrote k w (u64_bytes (length buf)) r
      → ((n : ℕ) → r.0 ≡ some n → n ≡ 8)
      → Sends k w (u64_bytes (length buf) ++ buf) (elim r.0 [
        | none ↦ some (false, k.close r.1)
        | some n ↦ elim (int_fails n) [
          | true ↦ some (false, k.close r.1)
          | false ↦ send_loop k rounds buf 0 r.1
        ]
      ])
  after_header w rounds h r e (fails w') whole = breaks w (u64_bytes (length buf)) w' e
  after_header w rounds h r e (takes n w' pos most few e') whole =
      let small : u32 n ≡ n = omega (arith, few) in
      let fine : int_fails n ≡ false = ground (arith, small, few) in
      let header = u64_bytes (length buf) in
      let all : take n header ≡ header =
        take_all n header (omega (arith, whole n refl, length-u64_bytes (length buf))) in
      rw fine (
        header_on w header w' _ (e' ∙ ap (λ t. k.sent w ++ t) all)
          (send_loop-Sends rounds 0 w' (omega arith) (omega (arith, h))))

  -- For a kernel whose `write` fails or takes some of the bytes, at least one and at most
  -- 0x7ffff000 as on Linux, and takes the length whole if that `write` does not fail, and a
  -- message below `2 ^ 64` bytes: `Send` returns within one round more than the message has bytes,
  -- either true with the length and the message added to the wire, or false after a `write` that
  -- failed.
  pub send-Sends :
      (w : k.World) (rounds : ℕ)
      → length buf < rounds
      → ((n : ℕ) → (k.write w (u64_bytes (length buf))).0 ≡ some n → n ≡ 8)
      → Sends k w (u64_bytes (length buf) ++ buf) (send k rounds buf w)
  unfolding send
  send-Sends w rounds h whole =
      let header = u64_bytes (length buf) in
      after_header w rounds h (k.write w header) refl
        (law w header (omega (arith, length-u64_bytes (length buf)))) whole
