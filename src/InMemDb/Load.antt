-- ===== src/InMemDb/Load.antt =====
-- Reading back what the destructor wrote.
use my_codebase.Base.{
  ℕ, suc, ◌-◌, ◌^◌, ◌≤◌, ◌<◌, ◌≡◌, refl, ap, ◌∙◌, [], ◌++◌, some, true, arith, length, take,
  replicate, length-append, length-take, length-replicate, take-append_length, drop-append_length,
  drop_all, append-nil, append_assoc, leb, ==-positive,
}
use my_codebase.Memory.{u32_bytes, of_bytes, of_bytes-u32_bytes}
use my_codebase.Stream.{read, opened}
use my_codebase.InMemDb.{Bytes, assign, save_item, read_into, resize, Loading, load_items}

-- A good stream hands out what is asked for, as long as it lasts.
read_exactly :
    (xs ys : Bytes) (n : ℕ) → n ≡ length xs → read n (opened (xs ++ ys)) ≡ (xs, opened ys)
unfolding read
read_exactly xs ys n e =
    let enough : leb n (length (xs ++ ys)) ≡ true = ground (arith, e, length-append xs ys) in
    rw (enough, e, take-append_length xs ys, drop-append_length xs ys)

read_into-opened :
    (old xs ys : Bytes)
    → length old ≡ length xs
    → read_into old (opened (xs ++ ys)) ≡ (xs, opened ys)
unfolding read_into
read_into-opened old xs ys e =
    rw (
      read_exactly xs ys (length old) e,
      drop_all (length xs) old (omega (arith, e)),
      append-nil xs,
    )

length-resize : (n : ℕ) (s : Bytes) → length (resize n s) ≡ n
unfolding resize
length-resize n s = omega (
  arith,
  length-append (take n s) (replicate (n - length s) 0),
  length-take n s,
  length-replicate {A = ℕ} (n - length s) 0,
)

-- What one turn of the loop reads of what one turn of the other loop wrote.
module _ (key value more : Bytes) (st : Loading) (rounds : ℕ) (some_key : 1 ≤ length key)
    (key_word : length key < 2 ^ 32) (value_word : length value < 2 ^ 32) where
  after_size : Bytes
  after_size = key ++ (u32_bytes (length value) ++ (value ++ more))

  split_item : save_item (key, value) ++ more ≡ u32_bytes (length key) ++ after_size
  unfolding save_item after_size
  split_item =
      append_assoc (u32_bytes (length key)) (key ++ (u32_bytes (length value) ++ value)) more
      ∙ ap (λ t. u32_bytes (length key) ++ t)
          (append_assoc key (u32_bytes (length value) ++ value) more)
      ∙ ap (λ t. u32_bytes (length key) ++ (key ++ t))
          (append_assoc (u32_bytes (length value)) value more)

  size_length : (old n : ℕ) → length (u32_bytes old) ≡ length (u32_bytes n)
  unfolding u32_bytes
  size_length old n = refl

  key_read :
      read_into (resize (length key) st.key) (opened after_size)
      ≡ (key, opened (u32_bytes (length value) ++ (value ++ more)))
  unfolding after_size
  key_read =
      read_into-opened (resize (length key) st.key) key
        (u32_bytes (length value) ++ (value ++ more)) (length-resize (length key) st.key)

  -- One turn of the loop assigns the item that was written.
  pub load_item :
      load_items (suc rounds) st (opened (save_item (key, value) ++ more))
      ≡ load_items rounds
          (record { key = key; value = value; index = assign key value st.index })
          (opened more)
  unfolding load_items
  load_item =
      let size₁ = of_bytes-u32_bytes (length key) key_word in
      let size₂ = of_bytes-u32_bytes (length value) value_word in
      rw (
        split_item,
        read_into-opened (u32_bytes 0) (u32_bytes (length key)) after_size
            (size_length 0 (length key)),
        size₁,
        ==-positive (length key) some_key,
        key_read,
        read_into-opened (u32_bytes (length key)) (u32_bytes (length value)) (value ++ more)
            (size_length (length key) (length value)),
        size₂,
        read_into-opened (resize (length value) st.value) value more
            (length-resize (length value) st.value),
      )

-- At the end of the file the loop stops.
pub load_end : (rounds : ℕ) (st : Loading) → load_items (suc rounds) st (opened []) ≡ some st.index
unfolding load_items read_into read u32_bytes of_bytes
load_end rounds st = refl
