-- ===== src/Finesse/Groups.antt =====
-- With the numbers of src/app/chunking_test.cc the groups fill up, and the super-features are found.
use my_codebase.Base.{
  ℕ, zero, suc, ◌≤◌, ◌<◌, ◌≡◌, refl, ap, ◌∙◌, inl, inr, List, [], ◌∷◌, length, some, get_elem?,
  get_or, get_elem?-eq-get_or, arith, Bool-cases, replicate, leb,
}
use my_codebase.Finesse.{
  FinesseUtil, push_feature, insert_sorted, sort_group, sort_groups, collect, super_features,
}

-- The numbers of the program, and a window of at least one byte.
pub record IsProgram (f : FinesseUtil) : Type 0 where
  pub super_feature : f.super_feature_per_chunk ≡ 3
  pub feature : f.feature_per_chunk ≡ 12
  pub per_super : f.feature_per_super_feature ≡ 4
  pub window : 1 ≤ f.rabin_util.window_size

length-insert_sorted : (x : ℕ) (xs : List ℕ) → length (insert_sorted x xs) ≡ suc (length xs)
unfolding insert_sorted
length-insert_sorted x [] = refl
length-insert_sorted x (y ∷ ys) = elim (Bool-cases (leb y x)) [
  | inl h ↦ rw h
  | inr h ↦ rw h (ap suc (length-insert_sorted x ys))
]

length-sort_group : (xs : List ℕ) → length (sort_group xs) ≡ length xs
unfolding sort_group
length-sort_group [] = refl
length-sort_group (x ∷ xs) = length-insert_sorted x (sort_group xs) ∙ ap suc (length-sort_group xs)

sorted_at :
    (xs : List ℕ) (i : ℕ)
    → i < length xs
    → get_elem? (sort_group xs) i ≡ some (get_or (sort_group xs) i 0)
sorted_at xs i h = get_elem?-eq-get_or (sort_group xs) i 0 (omega (arith, h, length-sort_group xs))

abbrev at : List ℕ → ℕ → ℕ
at xs i = get_or (sort_group xs) i 0

-- Four groups of three features, from which the super-features are collected.
unfoldable pub Collects : (List ℕ → ℕ) → FinesseUtil → List (List ℕ) → Type 0
Collects hash f groups =
    (features : List ℕ) × (super_features hash f (sort_groups f.feature_per_super_feature groups)
        f.super_feature_per_chunk 0
      ≡ some features)

four_groups :
    (hash : List ℕ → ℕ) (f : FinesseUtil) (v : IsProgram f) (a b c d : List ℕ)
    (rest : List (List ℕ))
    → length a ≡ 3
    → length b ≡ 3
    → length c ≡ 3
    → length d ≡ 3
    → Collects hash f (a ∷ b ∷ c ∷ d ∷ rest)
unfolding super_features collect sort_groups Collects
four_groups hash f v a b c d rest ea eb ec ed = (
  hash (at a 0 ∷ at b 0 ∷ at c 0 ∷ at d 0 ∷ [])
      ∷ hash (at a 1 ∷ at b 1 ∷ at c 1 ∷ at d 1 ∷ [])
      ∷ hash (at a 2 ∷ at b 2 ∷ at c 2 ∷ at d 2 ∷ [])
      ∷ [],
  rw
      (
        v.super_feature,
        v.per_super,
        sorted_at a 0 (omega (arith, ea)),
        sorted_at b 0 (omega (arith, eb)),
        sorted_at c 0 (omega (arith, ec)),
        sorted_at d 0 (omega (arith, ed)),
        sorted_at a 1 (omega (arith, ea)),
        sorted_at b 1 (omega (arith, eb)),
        sorted_at c 1 (omega (arith, ec)),
        sorted_at d 1 (omega (arith, ed)),
        sorted_at a 2 (omega (arith, ea)),
        sorted_at b 2 (omega (arith, eb)),
        sorted_at c 2 (omega (arith, ec)),
        sorted_at d 2 (omega (arith, ed)),
      )
      refl,
)

-- What is left to push can be pushed, and the super-features be collected then.
unfoldable pub Pushable : (List ℕ → ℕ) → FinesseUtil → ℕ → List (List ℕ) × ℕ → Type 0
Pushable hash f zero g = Collects hash f g.0
Pushable hash f (suc n) g =
    (x : ℕ) → (g' : List (List ℕ) × ℕ) × (push_feature 3 x g ≡ some g') × Pushable hash f n g'

-- The third and the fourth group, behind two that are full.
last-Pushable :
    (hash : List ℕ → ℕ) (f : FinesseUtil) (v : IsProgram f) (a b : List ℕ)
    → length a ≡ 3
    → length b ≡ 3
    → Pushable hash f 6 (a ∷ b ∷ replicate 10 [], 2)
unfolding Pushable push_feature
last-Pushable hash f v a b ea eb x₁ = (
  _,
  refl,
  λ x₂. (
    _,
    refl,
    λ x₃. (
      _,
      refl,
      λ x₄. (
        _,
        refl,
        λ x₅. (
          _,
          refl,
          λ x₆. (
            _,
            refl,
            four_groups hash f v a b (x₁ ∷ x₂ ∷ x₃ ∷ []) (x₄ ∷ x₅ ∷ x₆ ∷ []) _ ea eb refl refl,
          ),
        ),
      ),
    ),
  ),
)

pub all-Pushable :
    (hash : List ℕ → ℕ) (f : FinesseUtil) → IsProgram f → Pushable hash f 12 (replicate 12 [], 0)
unfolding Pushable push_feature
all-Pushable hash f v x₁ = (
  _,
  refl,
  λ x₂. (
    _,
    refl,
    λ x₃. (
      _,
      refl,
      λ x₄. (
        _,
        refl,
        λ x₅. (
          _,
          refl,
          λ x₆. (_, refl, last-Pushable hash f v (x₁ ∷ x₂ ∷ x₃ ∷ []) (x₄ ∷ x₅ ∷ x₆ ∷ []) refl refl),
        ),
      ),
    ),
  ),
)
