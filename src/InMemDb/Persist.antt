-- ===== src/InMemDb/Persist.antt =====
-- What the destructor writes, the constructor reads.
use my_codebase.Base.{
  ℕ, zero, suc, ◌^◌, ◌≤◌, ◌<◌, ◌≡◌, refl, ap, ◌∙◌, [], ◌∷◌, Option, none, some, arith, Bool-cases,
  inl, inr, ◌⊎◌, length, All, ==-positive,
}
use my_codebase.Memory.{u32_bytes}
use my_codebase.Stream.{opened}
use my_codebase.InMemDb.{
  Bytes, Index, assign, find, bytes_eq, save, save_item, Loading, load_items, open_db,
}
use my_codebase.InMemDb.Index.{find-assign, bytes_eq-eq}
use my_codebase.InMemDb.Load.{load_item, load_end}

-- What a pair must be for its file to be readable.
pub record IsItem (item : Bytes × Bytes) : Type 0 where
  pub some_key : 1 ≤ length item.0
  pub key_word : length item.0 < 2 ^ 32
  pub value_word : length item.1 < 2 ^ 32

abbrev pub assign_all : Index → Index → Index
assign_all [] index = index
assign_all (item ∷ items) index = assign_all items (assign item.0 item.1 index)

load-save :
    (items : Index) (rounds : ℕ) (st : Loading)
    → All IsItem items
    → length items < rounds
    → load_items rounds st (opened (save items)) ≡ some (assign_all items st.index)
unfolding save
load-save items zero st v h = absurd (omega arith)
load-save [] (suc rounds) st v h = load_end rounds st
load-save (item ∷ items) (suc rounds) st v h =
    load_item item.0 item.1 (save items) st rounds v.0.some_key v.0.key_word v.0.value_word
    ∙ load-save items rounds _ v.1 (omega (arith, h))

-- No key stands in front of a pair with the same key.
abbrev pub IsDistinct : Index → Type 0
IsDistinct [] = Unit {0}
IsDistinct (item ∷ items) = (find item.0 items ≡ none) × IsDistinct items

or_else : Option Bytes → Option Bytes → Option Bytes
or_else (some v) o = some v
or_else none o = o

find-assign_all :
    (k : Bytes) (items index : Index)
    → IsDistinct items
    → find k (assign_all items index) ≡ or_else (find k items) (find k index)
unfolding find or_else
find-assign_all k [] index h = refl
find-assign_all k (item ∷ items) index h = elim (Bool-cases (bytes_eq k item.0)) [
  | inl same ↦
      let e = bytes_eq-eq k item.0 same in
      let unused : find k items ≡ none = ap (λ t. find t items) e ∙ h.0 in
      find-assign_all k items (assign item.0 item.1 index) h.1
      ∙ rw (unused, find-assign k item.0 item.1 index, same)
  | inr other ↦
      find-assign_all k items (assign item.0 item.1 index) h.1
      ∙ rw (find-assign k item.0 item.1 index, other)
]

or_else-none : (o : Option Bytes) → or_else o none ≡ o
unfolding or_else
or_else-none none = refl
or_else-none (some v) = refl

empty_or_not : (items : Index) → (items ≡ []) ⊎ (1 ≤ length (save items))
unfolding save save_item u32_bytes
empty_or_not [] = inl refl
empty_or_not (item ∷ items) = inr (omega arith)

-- For pairs in any order of iteration with distinct keys, none of them empty, and keys and values
-- shorter than `2 ^ 32`: opening the file that the destructor wrote, with one round of the loop
-- more than there are pairs, gives an index in which a search for any key answers as before.
pub open_db-save :
    (items : Index) (rounds : ℕ)
    → All IsItem items
    → IsDistinct items
    → length items < rounds
    → (index : Index) × (open_db rounds [] (some (save items)) ≡ some index)
      × ((k : Bytes) → find k index ≡ find k items)
unfolding open_db find save
open_db-save items rounds v d h = (
  assign_all items [],
  elim (empty_or_not items) [
    | inl e ↦ rw e
    | inr pos ↦ rw (==-positive (length (save items)) pos, load-save items rounds _ v h)
  ],
  λ k. find-assign_all k items [] d ∙ or_else-none (find k items),
)
