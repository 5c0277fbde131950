-- ===== src/Ssl/Send.antt =====
-- `SendData` puts one message behind those on the way.
use my_codebase.Base.{
  ℕ, zero, suc, ◌+◌, ◌%◌, ◌≤◌, ◌<◌, ◌^◌, ◌≡◌, refl, sym, ap, ◌∙◌, lt→ltb, List, [], ◌∷◌, ◌++◌,
  length, drop, Option, none, some, Bool, true, false, arith, append_assoc, drop_all,
}
use my_codebase.Memory.{u32_bytes, length-u32_bytes}
use my_codebase.Ssl.Transfer.{Connection, unless_failed, send_data_loop, send_data}
use my_codebase.Ssl.Records.{
  AreRecords, no_records, concat, Wrote, write_fails, writes, IsConnection, Carries, Carries-append,
}

-- How `SendData` ends: with the message behind those on the way, or after a write that failed.
pub data Sent (k : Connection) (law : IsConnection k) (q : List (List ℕ)) (msg : List ℕ)
    : Option (Bool × k.World) → Type 0 where
  sent :
      (w' : k.World)
      → Carries (q ++ (msg ∷ [])) (law.records w')
      → Sent k law q msg (some (true, w'))
  send_breaks :
      (bytes : List ℕ) (w₁ w₂ : k.World)
      → k.write bytes w₁ ≡ (none, w₂)
      → Sent k law q msg (some (false, w₂))

module _ (k : Connection) (law : IsConnection k) (q flow : List (List ℕ)) (msg : List ℕ)
    (short : length msg < 2 ^ 32) (on_way : Carries q flow) where
  abbrev header : List ℕ
  header = u32_bytes (length msg)

  rest-Sent :
      (rounds : ℕ) (rs : List (List ℕ)) (w : k.World)
      → AreRecords rs
      → concat rs ≡ msg
      → law.records w ≡ flow ++ (header ∷ rs)
      → Sent k law q msg (send_data_loop k (suc rounds) msg ((0 + length msg) % 2 ^ 32) w)
  unfolding send_data_loop
  rest-Sent rounds rs w full e e' =
      let ends : send_data_loop k (suc rounds) msg ((0 + length msg) % 2 ^ 32) w ≡ some (true, w) =
        ground arith in
      rw ends (sent w (rw e' (Carries-append msg q rs flow short full e on_way)))

  after_write :
      (rounds : ℕ) (w : k.World) (r : Option ℕ × k.World)
      → law.records w ≡ flow ++ (header ∷ [])
      → k.write msg w ≡ r
      → Wrote k law.records msg w r
      → Sent k law q msg
          (unless_failed (λ n w'. send_data_loop k (suc rounds) msg ((0 + n) % 2 ^ 32) w') r)
  unfolding unless_failed
  after_write rounds w r e e' (write_fails w') = send_breaks msg w w' e'
  after_write rounds w r e e' (writes rs w' full all one e₂) =
      rest-Sent rounds rs w' full all
        (e₂ ∙ ap (λ t. t ++ rs) e ∙ append_assoc flow (header ∷ []) rs)

  first_turn :
      (n : ℕ) (w : k.World)
      → 1 ≤ length msg
      → send_data_loop k (suc (suc n)) msg 0 w
        ≡ unless_failed
            (λ m w'. send_data_loop k (suc n) msg ((0 + m) % 2 ^ 32) w')
            (k.write (drop 0 msg) w)
  unfolding send_data_loop
  first_turn n w some_left = rw (lt→ltb 0 (length msg) some_left)

  none_left : (w : k.World) → length msg ≡ 0 → send_data_loop k 1 msg 0 w ≡ some (true, w)
  unfolding send_data_loop
  none_left w size = rw size

  body :
      (rounds : ℕ) (w : k.World)
      → rounds ≡ length msg
      → law.records w ≡ flow ++ (header ∷ [])
      → Sent k law q msg (send_data_loop k (suc rounds) msg 0 w)
  body zero w size e =
      let empty : msg ≡ [] = drop_all 0 msg (omega (arith, size)) in
      rw (none_left w (sym size))
        (sent w (rw e (Carries-append msg q [] flow short no_records (sym empty) on_way)))
  body (suc n) w size e =
      let some_left : 1 ≤ length msg = omega (arith, size) in
      rw (first_turn n w some_left)
        (after_write n w (k.write msg w) e refl (law.write_law msg w some_left))

  after_header :
      (w : k.World) (r : Option ℕ × k.World)
      → law.records w ≡ flow
      → k.write header w ≡ r
      → Wrote k law.records header w r
      → Sent k law q msg (unless_failed (λ _ w'. send_data_loop k (suc (length msg)) msg 0 w') r)
  unfolding unless_failed
  after_header w r e e' (write_fails w') = send_breaks header w w' e'
  after_header w r e e' (writes rs w' full all one e₂) =
      let whole = one (omega (arith, length-u32_bytes (length msg))) in
      body (length msg) w' refl (e₂ ∙ ap (λ t. t ++ rs) e ∙ ap (λ t. flow ++ t) whole)

pub send_data-Sent :
    (k : Connection) (law : IsConnection k) (q : List (List ℕ)) (msg : List ℕ) (w : k.World)
    → length msg < 2 ^ 32
    → Carries q (law.records w)
    → Sent k law q msg (send_data k msg w)
unfolding send_data
send_data-Sent k law q msg w short on_way =
    let bytes = u32_bytes (length msg) in
    after_header k law q (law.records w) msg short on_way w (k.write bytes w) refl refl
      (law.write_law bytes w (omega (arith, length-u32_bytes (length msg))))
