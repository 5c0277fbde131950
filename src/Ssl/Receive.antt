-- ===== src/Ssl/Receive.antt =====
-- `ReceiveData` takes the oldest message off the way.
use my_codebase.Base.{
  ℕ, zero, suc, ◌+◌, ◌-◌, ◌≤◌, ◌<◌, ◌≡◌, refl, sym, ap, ◌∙◌, lt→ltb, List, [], ◌∷◌, ◌++◌, length,
  take, drop, Option, none, some, Bool, true, false, ◌⊎◌, inl, inr, if◌then◌else◌, arith,
  append_assoc, append-nil, take_all, drop_all, length-append,
}
use my_codebase.Memory.{u32_bytes, length-u32_bytes, of_bytes-u32_bytes}
use my_codebase.Ssl.Transfer.{
  Connection, unless_ended, receive_data_loop, report, after_msg_size, receive_data,
}
use my_codebase.Ssl.Records.{
  AreRecords, no_records, more_records, concat, put_back, Arrived, read_fails, arrives,
  IsConnection, Carries, nothing, carries,
}

-- How the loop ends: with the message, behind which `others` follow, or after a read that failed.
pub data Fills (k : Connection) (law : IsConnection k) (others : List (List ℕ)) (msg : List ℕ)
    : Option (Bool × List ℕ × k.World) → Type 0 where
  fills : (w' : k.World) → law.records w' ≡ others → Fills k law others msg (some (true, msg, w'))
  fill_breaks :
      (n : ℕ) (w₁ w₂ : k.World) (part : List ℕ)
      → k.read n w₁ ≡ (none, w₂)
      → Fills k law others msg (some (false, part, w₂))

-- How `ReceiveData` ends: with the oldest message, or after a read that failed.
pub data Received (k : Connection) (law : IsConnection k) (q : List (List ℕ)) (old : ℕ)
    : Option (Bool × ℕ × List ℕ × k.World) → Type 0 where
  received :
      (msg : List ℕ) (q' : List (List ℕ)) (w' : k.World)
      → q ≡ msg ∷ q'
      → Carries q' (law.records w')
      → Received k law q old (some (true, length msg, msg, w'))
  receive_breaks :
      (n : ℕ) (w₁ w₂ : k.World) (part : List ℕ) (w₃ : k.World)
      → k.read n w₁ ≡ (none, w₂)
      → (w₃ ≡ w₂) ⊎ (w₃ ≡ k.shutdown w₂)
      → Received k law q old (some (false, old, part, w₃))

either : {W : Type 0} (b : Bool) (x y : W) → ((if b then y else x) ≡ x) ⊎ ((if b then y else x) ≡ y)
either true x y = inr refl
either false x y = inl refl

cons_parts : (x y : List ℕ) (xs ys : List (List ℕ)) → x ∷ xs ≡ y ∷ ys → (x ≡ y) × (xs ≡ ys)
cons_parts x y xs ys e = (cc, cc)

no_record {ℓ} : {A : Type ℓ} (r : List ℕ) (rs : List (List ℕ)) → r ∷ rs ≡ [] → A
no_record r rs e = cc

module _ (k : Connection) (law : IsConnection k) where
  -- A read for at least as many bytes as the first record has.
  whole_record :
      (n : ℕ) (w w' : k.World) (r r' : List ℕ) (rs rs' : List (List ℕ))
      → law.records w ≡ r ∷ rs
      → law.records w ≡ r' ∷ rs'
      → law.records w' ≡ put_back (drop n r') rs'
      → length r ≤ n
      → (take n r' ≡ r) × (law.records w' ≡ rs)
  whole_record n w w' r r' rs rs' e e' e₂ most =
      let (same, rest) = cons_parts r' r rs' rs (sym e' ∙ e) in
      (
        rw same (take_all n r most),
        e₂
            ∙ ap (λ t. put_back (drop n t) rs') same
            ∙ ap (λ t. put_back t rs') (drop_all n r most)
            ∙ rest,
      )

  module _ (others : List (List ℕ)) (msg : List ℕ) where
    loop_ends :
        (rounds : ℕ) (got : List ℕ) (w : k.World)
        → length msg ≤ length got
        → receive_data_loop k (suc rounds) (length msg) got w ≡ some (true, got, w)
    unfolding receive_data_loop
    loop_ends rounds got w all = ground arith

    loop_turn :
        (rounds : ℕ) (got : List ℕ) (w : k.World)
        → length got < length msg
        → receive_data_loop k (suc rounds) (length msg) got w
          ≡ unless_ended got
              (λ got' w'. receive_data_loop k rounds (length msg) got' w')
              (k.read (length msg - length got) w)
    unfolding receive_data_loop
    loop_turn rounds got w more = rw (lt→ltb (length got) (length msg) more)

    after_read :
        (n : ℕ) (next : List ℕ → k.World → Option (Bool × List ℕ × k.World)) (r got : List ℕ)
        (rs : List (List ℕ)) (w : k.World) (a : Option (List ℕ) × k.World)
        → law.records w ≡ r ∷ (rs ++ others)
        → length r ≤ n
        → k.read n w ≡ a
        → Arrived k law.records n w a
        → ((w' : k.World)
            → law.records w' ≡ rs ++ others
            → Fills k law others msg (next (got ++ r) w'))
        → Fills k law others msg (unless_ended got next a)
    unfolding unless_ended
    after_read n next r got rs w a e most e' (read_fails w') go = fill_breaks n w w' got e'
    after_read n next r got rs w a e most e' (arrives r' rs' w' e₂ e₃) go =
        let (same, rest) = whole_record n w w' r r' (rs ++ others) rs' e e₂ e₃ most in
        rw same (go w' rest)

    receive_data_loop-Fills :
        (rounds : ℕ) (rs : List (List ℕ)) (got : List ℕ) (w : k.World)
        → AreRecords rs
        → got ++ concat rs ≡ msg
        → law.records w ≡ rs ++ others
        → length msg < length got + rounds
        → Fills k law others msg (receive_data_loop k rounds (length msg) got w)
    receive_data_loop-Fills zero rs got w full e e' enough =
        absurd (omega (arith, length-append got (concat rs), ap length e))
    receive_data_loop-Fills (suc rounds) rs got w no_records e e' enough =
        let same : got ≡ msg = sym (append-nil got) ∙ e in
        rw (loop_ends rounds got w (omega (arith, ap length same)), same) (fills w e')
    receive_data_loop-Fills (suc rounds) rs got w (more_records r rs' pos full) e e' enough =
        let size : length got + (length r + length (concat rs')) ≡ length msg =
          omega (
            arith,
            length-append got (r ++ concat rs'),
            length-append r (concat rs'),
            ap length e,
          ) in
        let n = length msg - length got in
        rw (loop_turn rounds got w (omega (arith, size, pos))) (
          after_read n _ r got rs' w (k.read n w) e' (omega (arith, size)) refl
            (law.read_law n w (omega (arith, size, pos)))
            (λ w' e₂.
              receive_data_loop-Fills rounds rs' (got ++ r) w' full
                (append_assoc got r (concat rs') ∙ e) e₂
                (omega (arith, length-append got r, pos, enough))))

  report-Fills :
      (q' : List (List ℕ)) (msg : List ℕ) (old : ℕ) (others : List (List ℕ))
      (r : Option (Bool × List ℕ × k.World))
      → Carries q' others
      → Fills k law others msg r
      → Received k law (msg ∷ q') old (report old (length msg) r)
  unfolding report
  report-Fills q' msg old others r rest (fills w' e) = received msg q' w' refl (rw e rest)
  report-Fills q' msg old others r rest (fill_breaks n w₁ w₂ part e) =
      receive_breaks n w₁ w₂ part w₂ e (inl refl)

  after_msg_size-Received :
      (q : List (List ℕ)) (old : ℕ) (w : k.World) (a : Option (List ℕ) × k.World)
      → Carries q (law.records w)
      → k.read 4 w ≡ a
      → Arrived k law.records 4 w a
      → Received k law q old (after_msg_size k old a)
  unfolding after_msg_size
  after_msg_size-Received q old w a on_way e (read_fails w') =
      receive_breaks 4 w w' [] _ e (either (k.is_zero_return w') w' (k.shutdown w'))
  after_msg_size-Received q old w a (nothing f empty) e (arrives r rs w' e₂ e₃) =
      no_record r rs (sym e₂ ∙ empty)
  after_msg_size-Received q old w a (carries msg q' rs others f short full whole rest e') e
        (arrives r' rs' w' e₂ e₃) =
      let header = u32_bytes (length msg) in
      let (same, next) =
        whole_record 4 w w' header r' (rs ++ others) rs' e' e₂ e₃
          (omega (arith, length-u32_bytes (length msg))) in
      rw (same, of_bytes-u32_bytes (length msg) short)
        (report-Fills q' msg old others _ rest (
          receive_data_loop-Fills others msg (suc (length msg)) rs [] w' full whole next
            (omega arith)))

pub receive_data-Received :
    (k : Connection) (law : IsConnection k) (q : List (List ℕ)) (old : ℕ) (w : k.World)
    → Carries q (law.records w)
    → Received k law q old (receive_data k old w)
unfolding receive_data
receive_data-Received k law q old w on_way =
    after_msg_size-Received k law q old w (k.read 4 w) on_way refl (law.read_law 4 w (omega arith))
