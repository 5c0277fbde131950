-- ===== src/Socket/Recv.antt =====
-- `Recv` takes one frame off the wire.
use my_codebase.Base.{
  ℕ, zero, suc, ◌+◌, ◌-◌, ◌^◌, ◌≤◌, ◌<◌, ◌≡◌, refl, sym, ap, ap₂, ◌∙◌, ◌==◌, ltb, List, [], ◌∷◌,
  ◌++◌, length, drop, take, take_all, u32, ◌||◌, Option, none, some, Bool, true, false, ◌⊎◌, ◌>>=◌,
  inl, inr, arith, Bool-cases, append_assoc, append-nil, drop_all, length-append, ltb→ge, ltb→lt,
  ==-positive,
}
use my_codebase.Memory.{u64_bytes, length-u64_bytes, of_bytes, of_bytes-u64_bytes}
use my_codebase.Socket.{Source, int_negative, recv_loop, recv, size_after, is_end_of_stream}

-- What a `read` from a blocking socket does: it fails, or some of the bytes arrive, at most `n` and,
-- unless the stream is at its end, at least one. Linux moves at most 0x7ffff000 bytes in one call.
pub data Arrived (k : Source) (w : k.World) (n : ℕ) : Option (List ℕ) × k.World → Type 0 where
  fails : (w' : k.World) → Arrived k w n (none, w')
  arrives :
      (bytes : List ℕ) (w' : k.World)
      → length bytes ≤ n
      → length bytes ≤ 0x7fff_f000
      → k.incoming w ≡ bytes ++ k.incoming w'
      → Arrived k w n (some bytes, w')

abbrev pub IsSource : Source → Type 0
IsSource k = (w : k.World) (n : ℕ) → 1 ≤ n → Arrived k w n (k.read w n)

-- How the loop ends: with `n` bytes, those that were next on the wire, or after a `read` that
-- failed or found the end of the stream.
pub data Receives (k : Source) (w : k.World) (n : ℕ) (got : List ℕ)
    : Option (Bool × List ℕ × k.World) → Type 0 where
  receives :
      (bytes : List ℕ) (w' : k.World)
      → length (got ++ bytes) ≡ n
      → k.incoming w ≡ bytes ++ k.incoming w'
      → Receives k w n got (some (true, got ++ bytes, w'))
  breaks :
      (w₁ : k.World) (m : ℕ) (w₂ : k.World) (part : List ℕ)
      → ((k.read w₁ m ≡ (none, w₂)) ⊎ (k.read w₁ m ≡ (some [], w₂)))
      → Receives k w n got (some (false, part, k.close w₂))

module _ (k : Source) (law : IsSource k) (n : ℕ) where
  module _ (rounds : ℕ) (got : List ℕ) (w : k.World) (h : length got ≤ n) where
    loop_ends : n ≤ length got → recv_loop k (suc rounds) n got w ≡ some (true, got, w)
    unfolding recv_loop
    loop_ends g = ground arith

    Receives-on :
        (bytes : List ℕ) (w' : k.World) (r : Option (Bool × List ℕ × k.World))
        → k.incoming w ≡ bytes ++ k.incoming w'
        → Receives k w' n (got ++ bytes) r
        → Receives k w n got r
    Receives-on bytes w' r e (receives more w₂ size e') = rw (append_assoc got bytes more) (
        receives (bytes ++ more) w₂ (rw (append_assoc got bytes more) at size)
          (e ∙ ap (λ t. bytes ++ t) e' ∙ sym (append_assoc bytes more (k.incoming w₂))))
    Receives-on bytes w' r e (breaks w₁ m w₂ part e') = breaks w₁ m w₂ part e'

    abbrev more_of : Option (List ℕ) × k.World → Option (Bool × List ℕ × k.World)
    more_of r = elim r.0 [
      | none ↦ some (false, got, k.close r.1)
      | some bytes ↦ elim (int_negative (length bytes) || u32 (length bytes) == 0) [
        | true ↦ some (false, got, k.close r.1)
        | false ↦ recv_loop k rounds n (got ++ take (u32 (length bytes)) bytes) r.1
      ]
    ]

    all_got : length got ≡ n → Receives k w n got (some (true, got, w))
    all_got e =
        let whole : Receives k w n got (some (true, got ++ [], w)) =
          receives [] w (ap length (append-nil got) ∙ e) refl in
        rw (append-nil got) at whole

    loop_step :
        ltb (length got) n ≡ true
        → recv_loop k (suc rounds) n got w ≡ more_of (k.read w (n - length got))
    unfolding recv_loop
    loop_step more = rw more

    more_of-some :
        (bytes : List ℕ) (w' : k.World)
        → 1 ≤ length bytes
        → length bytes ≤ 0x7fff_f000
        → more_of (some bytes, w') ≡ recv_loop k rounds n (got ++ bytes) w'
    more_of-some bytes w' some_left few =
        let size : u32 (length bytes) ≡ length bytes = omega (arith, few) in
        let fine : int_negative (length bytes) ≡ false = ground (arith, size, few) in
        let whole : take (u32 (length bytes)) bytes ≡ bytes =
          take_all (u32 (length bytes)) bytes (omega (arith, size)) in
        let positive : u32 (length bytes) == 0 ≡ false = ground (arith, size, some_left) in
        rw (more_of, fine, positive, whole)

    turn :
        (r : Option (List ℕ) × k.World)
        → k.read w (n - length got) ≡ r
        → Arrived k w (n - length got) r
        → ((bytes : List ℕ) (w' : k.World)
            → 1 ≤ length bytes
            → length bytes ≤ n - length got
            → Receives k w' n (got ++ bytes) (recv_loop k rounds n (got ++ bytes) w'))
        → Receives k w n got (more_of r)
    turn r e (fails w') next = breaks w (n - length got) w' got (inl e)
    turn r e (arrives [] w' most few e') next = breaks w (n - length got) w' got (inr e)
    turn r e (arrives (b ∷ bs) w' most few e') next =
        rw (more_of-some (b ∷ bs) w' (omega arith) few)
          (Receives-on (b ∷ bs) w' _ e' (next (b ∷ bs) w' (omega arith) most))

  pub recv_loop-Receives :
      (rounds : ℕ) (got : List ℕ) (w : k.World)
      → length got ≤ n
      → n < length got + rounds
      → Receives k w n got (recv_loop k rounds n got w)
  recv_loop-Receives zero got w h g = absurd (omega arith)
  recv_loop-Receives (suc rounds) got w h g = elim (Bool-cases (ltb (length got) n)) [
    | inl more ↦
        let left : 1 ≤ n - length got = omega (arith, ltb→lt _ _ more) in
        rw (loop_step rounds got w h more) (
          turn rounds got w h (k.read w (n - length got)) refl (law w (n - length got) left)
            (λ bytes w' pos most.
              let size = length-append got bytes in
              recv_loop-Receives rounds (got ++ bytes) w' (omega (arith, size, most, h))
                (omega (arith, size, pos, g))))
    | inr all ↦
        rw (loop_ends rounds got w h (ltb→ge _ _ all))
          (all_got rounds got w h (omega (arith, h, ltb→ge _ _ all)))
  ]

-- How `Recv` ends on a frame: with the message and what follows it still on the wire, or with false
-- after a `read` that failed or found the end of the stream.
pub data Gets (k : Source) (msg more : List ℕ) : Option (Bool × ℕ × List ℕ × k.World) → Type 0 where
  gets : (w' : k.World) → k.incoming w' ≡ more → Gets k msg more (some (true, length msg, msg, w'))
  breaks_off :
      (w₁ : k.World) (m : ℕ) (w₂ : k.World) (size : ℕ) (part : List ℕ)
      → ((k.read w₁ m ≡ (none, w₂)) ⊎ (k.read w₁ m ≡ (some [], w₂)))
      → Gets k msg more (some (false, size, part, k.close w₂))

cons_inj : (x y : ℕ) (xs ys : List ℕ) → x ∷ xs ≡ y ∷ ys → (x ≡ y) × (xs ≡ ys)
cons_inj x y xs ys e = (cc, cc)

take_front :
    (xs ys zs ws : List ℕ) → length xs ≡ length zs → xs ++ ys ≡ zs ++ ws → (xs ≡ zs) × (ys ≡ ws)
take_front [] ys [] ws e h = (refl, h)
take_front [] ys (z ∷ zs) ws e h = absurd (omega (arith, e))
take_front (x ∷ xs) ys [] ws e h = absurd (omega (arith, e))
take_front (x ∷ xs) ys (z ∷ zs) ws e h =
    let (heads, tails) = cons_inj x z (xs ++ ys) (zs ++ ws) h in
    let (fronts, rests) = take_front xs ys zs ws (omega (arith, e)) tails in
    (ap₂ (λ t ts. t ∷ ts) heads fronts, rests)

module _ (k : Source) (law : IsSource k) (msg more : List ℕ) where
  from_Arrived :
      (w w₁ : k.World) (header : List ℕ)
      → Arrived k w 8 (some header, w₁)
      → k.incoming w ≡ header ++ k.incoming w₁
  from_Arrived w w₁ header (arrives bytes w' most few e) = e

  after_loop :
      (w : k.World) (r : Option (Bool × List ℕ × k.World))
      → k.incoming w ≡ msg ++ more
      → Receives k w (length msg) [] r
      → Gets k msg more (r >>= λ t. some (t.0, length msg, t.1, t.2))
  after_loop w r e (receives bytes w' size e') =
      let (same, rest) = take_front bytes (k.incoming w') msg more size (sym e' ∙ e) in
      rw same (gets w' rest)
  after_loop w r e (breaks w₁ m w₂ part h) = breaks_off w₁ m w₂ (length msg) part h

  -- For a kernel whose `read` fails or delivers some of what has arrived, at most 0x7ffff000 bytes
  -- at once as on Linux, and a frame of a message that is not empty and shorter than `2 ^ 64` on
  -- the wire, whose length the first `read` delivers whole: `Recv` returns within one round more
  -- than the message has bytes, either true with the message, its length, and what follows it
  -- still on the wire, or false after a `read` that failed or found the end.
  pub recv-Gets :
      (rounds old : ℕ) (w w₁ : k.World) (header : List ℕ)
      → length msg < rounds
      → 1 ≤ length msg
      → length msg < 2 ^ 64
      → k.incoming w ≡ u64_bytes (length msg) ++ (msg ++ more)
      → k.read w 8 ≡ (some header, w₁)
      → length header ≡ 8
      → Gets k msg more (recv k rounds old w)
  unfolding recv size_after is_end_of_stream
  recv-Gets rounds old w w₁ header h pos word e first whole =
      let front : k.incoming w ≡ header ++ k.incoming w₁ =
        from_Arrived w w₁ header (rw first at (law w 8 (omega arith))) in
      let (same, rest) =
        take_front header (k.incoming w₁) (u64_bytes (length msg)) (msg ++ more)
          (whole ∙ sym (length-u64_bytes (length msg))) (sym front ∙ e) in
      let size : of_bytes (header ++ drop (length header) (u64_bytes old)) ≡ length msg =
        ap (λ t. of_bytes (header ++ t))
          (drop_all (length header) (u64_bytes old) (omega (arith, whole, length-u64_bytes old)))
        ∙ ap of_bytes (append-nil header ∙ same)
        ∙ of_bytes-u64_bytes (length msg) word in
      let header_size : u32 (length header) == 0 ≡ false = ground (arith, whole) in
      rw (first, header_size, size, ==-positive (length msg) pos)
        (after_loop w₁ _ rest
          (recv_loop-Receives k law (length msg) rounds [] w₁ (omega arith) (omega (arith, h))))
