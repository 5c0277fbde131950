-- ===== src/InMemDb/Index.antt =====
-- The index as a map.
use mathlib.Core.Bool.{false≢true}
use my_codebase.Base.{
  ◌≡◌, refl, sym, ap, ap₂, ◌∙◌, ◌==◌, if◌then◌else◌, [], ◌∷◌, some, true, false, arith, Bool-cases,
  inl, inr, ==_iff, ◌↔◌,
}
use my_codebase.InMemDb.{Bytes, bytes_eq, Index, find, assign, InMemoryDatabase, query, insert}

pub bytes_eq_refl : (xs : Bytes) → bytes_eq xs xs ≡ true
unfolding bytes_eq
bytes_eq_refl [] = refl
bytes_eq_refl (x ∷ xs) = ground (arith, bytes_eq_refl xs)

pub bytes_eq-eq : (xs ys : Bytes) → bytes_eq xs ys ≡ true → xs ≡ ys
unfolding bytes_eq
bytes_eq-eq [] [] e = refl
bytes_eq-eq [] (y ∷ ys) e = absurd (false≢true e)
bytes_eq-eq (x ∷ xs) [] e = absurd (false≢true e)
bytes_eq-eq (x ∷ xs) (y ∷ ys) e = elim (Bool-cases (x == y)) [
  | inl same ↦
      let rest : bytes_eq xs ys ≡ true = rw same at e in
      ap₂ (λ t ts. t ∷ ts) ((==_iff x y).0 same) (bytes_eq-eq xs ys rest)
  | inr other ↦ let never : false ≡ true = rw other at e in absurd (false≢true never)
]

-- A test of three strings two of which agree.
bytes_eq_apart :
    (k key key' : Bytes)
    → bytes_eq key key' ≡ false
    → bytes_eq k key' ≡ true
    → bytes_eq k key ≡ false
bytes_eq_apart k key key' apart same = elim (Bool-cases (bytes_eq k key)) [
  | inr no_match ↦ no_match
  | inl both ↦
      let e : key ≡ key' = sym (bytes_eq-eq k key both) ∙ bytes_eq-eq k key' same in
      absurd (false≢true (sym apart ∙ ap (bytes_eq key) (sym e) ∙ bytes_eq_refl key))
]

assign_here :
    (k key value : Bytes) (item : Bytes × Bytes) (items : Index)
    → bytes_eq key item.0 ≡ true
    → find k (assign key value (item ∷ items))
      ≡ (if bytes_eq k key then some value else find k (item ∷ items))
unfolding find assign
assign_here k key value item items e =
    let same = bytes_eq-eq key item.0 e in
    elim (Bool-cases (bytes_eq k item.0)) [ inl h ↦ rw (e, same, h) | inr h ↦ rw (e, same, h) ]

assign_later :
    (k key value : Bytes) (item : Bytes × Bytes) (items : Index)
    → bytes_eq key item.0 ≡ false
    → find k (assign key value items) ≡ (if bytes_eq k key then some value else find k items)
    → find k (assign key value (item ∷ items))
      ≡ (if bytes_eq k key then some value else find k (item ∷ items))
unfolding find assign
assign_later k key value item items e later = elim (Bool-cases (bytes_eq k item.0)) [
  | inl h ↦ rw (e, h, bytes_eq_apart k key item.0 e h)
  | inr h ↦ rw (e, h, later)
]

-- An assignment is seen by a search for its key, and by no other.
pub find-assign :
    (k key value : Bytes) (items : Index)
    → find k (assign key value items) ≡ (if bytes_eq k key then some value else find k items)
find-assign k key value [] = unfold find assign in refl
find-assign k key value (item ∷ items) = elim (Bool-cases (bytes_eq key item.0)) [
  | inl e ↦ assign_here k key value item items e
  | inr e ↦ assign_later k key value item items e (find-assign k key value items)
]

-- After an insertion a query for the key finds the value, and a query for any other key what it
-- found before.
pub query-insert :
    (k key value : Bytes) (db : InMemoryDatabase)
    → query k (insert key value db).1 ≡ (if bytes_eq k key then some value else query k db)
unfolding query insert
query-insert k key value db = find-assign k key value db.index_obj

-- A string equals itself, and two strings that the test takes for equal are equal.
pub bytes_eq_iff : (xs ys : Bytes) → (bytes_eq xs ys ≡ true) ↔ (xs ≡ ys)
bytes_eq_iff xs ys = (bytes_eq-eq xs ys, λ e. ap (bytes_eq xs) (sym e) ∙ bytes_eq_refl xs)
