-- ===== src/Base/Sorting.antt =====
-- ORDER BY, LIMIT and OFFSET over a list of rows.
use Prim.Native.Nat.{ℕ, ◌+◌, ◌-◌, ◌≤◌}
use mathlib.Core.Path.{◌≡◌, refl, ap, ◌∙◌}
use mathlib.Core.Logic.{◌⊎◌, inl, inr}
use mathlib.Core.Bool.{Bool, true, false}
use mathlib.Core.List.{List, [], ◌∷◌, ◌++◌}
use native.Mathlib.Omega.{arith}
use cron_lib.Base.Tests.{if◌then◌else◌, ◌==◌, Bool-cases}
use cron_lib.Base.Tables.{All, All-mono, length}

zero_add : (m n : ℕ) → (m == 0) ≡ true → n ≡ m + n
zero_add m n z = ground arith

add_nonzero : (m n : ℕ) → (m == 0) ≡ false → (m + n == 0) ≡ false
add_nonzero m n z = ground arith

pred_add : (m n : ℕ) → (m == 0) ≡ false → m - 1 + n ≡ m + n - 1
pred_add m n z = ground arith

module _ {ℓ} {A : Type ℓ} where
  abbrev pub limit : ℕ → List A → List A
  limit n [] = []
  limit n (x ∷ xs) = if n == 0 then [] else x ∷ limit (n - 1) xs

  abbrev pub offset : ℕ → List A → List A
  offset n [] = []
  offset n (x ∷ xs) = if n == 0 then x ∷ xs else offset (n - 1) xs

  pub limit-offset :
      (m n : ℕ) (xs : List A) → limit m xs ++ limit n (offset m xs) ≡ limit (m + n) xs
  limit-offset m n [] = refl
  limit-offset m n (x ∷ xs) = elim (Bool-cases (m == 0)) [
    | inl z ↦ rw z (ap (λ k. limit k (x ∷ xs)) (zero_add m n z))
    | inr z ↦
        rw (z, add_nonzero m n z)
          (ap (◌∷◌ x) (limit-offset (m - 1) n xs ∙ ap (λ k. limit k xs) (pred_add m n z)))
  ]

  pub offset-offset : (m n : ℕ) (xs : List A) → offset n (offset m xs) ≡ offset (m + n) xs
  offset-offset m n [] = refl
  offset-offset m n (x ∷ xs) = elim (Bool-cases (m == 0)) [
    | inl z ↦ rw z (ap (λ k. offset k (x ∷ xs)) (zero_add m n z))
    | inr z ↦
        rw (z, add_nonzero m n z)
          (offset-offset (m - 1) n xs ∙ ap (λ k. offset k xs) (pred_add m n z))
  ]

  pub All-limit {κ} : (P : A → Type κ) (n : ℕ) (xs : List A) → All P xs → All P (limit n xs)
  All-limit P n [] a = tt
  All-limit P n (x ∷ xs) a = ground (arith, All-limit P (n - 1) xs)

  pub All-offset {κ} : (P : A → Type κ) (n : ℕ) (xs : List A) → All P xs → All P (offset n xs)
  All-offset P n [] a = tt
  All-offset P n (x ∷ xs) a = ground (arith, All-offset P (n - 1) xs)

  pub length-limit : (n : ℕ) (xs : List A) → length (limit n xs) ≤ n
  length-limit n [] = omega arith
  length-limit n (x ∷ xs) = ground (arith, length-limit (n - 1) xs)

  module _ (le : A → A → Bool) where
    abbrev pub place : A → List A → List A
    place x [] = x ∷ []
    place x (y ∷ ys) = if le x y then x ∷ y ∷ ys else y ∷ place x ys

    -- Insertion sort: rows that are equal in the order keep the order of the table.
    abbrev pub sort : List A → List A
    sort [] = []
    sort (x ∷ xs) = place x (sort xs)

    abbrev pub IsSorted : List A → Type 0
    IsSorted [] = Unit
    IsSorted (x ∷ xs) = All (λ y. le x y ≡ true) xs × IsSorted xs

    All-place {κ} : (P : A → Type κ) (x : A) (xs : List A) → P x → All P xs → All P (place x xs)
    All-place P x [] h a = (h, tt)
    All-place P x (y ∷ ys) h a = ground (arith, All-place P x ys)

    pub All-sort {κ} : (P : A → Type κ) (xs : List A) → All P xs → All P (sort xs)
    All-sort P [] a = tt
    All-sort P (x ∷ xs) a = All-place P x (sort xs) a.0 (All-sort P xs a.1)

    length-place : (x : A) (xs : List A) → length (place x xs) ≡ length xs + 1
    length-place x [] = omega arith
    length-place x (y ∷ ys) = ground (arith, length-place x ys)

    pub length-sort : (xs : List A) → length (sort xs) ≡ length xs
    length-sort [] = refl
    length-sort (x ∷ xs) = omega (arith, length-place x (sort xs), length-sort xs)

    pub IsSorted-limit : (n : ℕ) (xs : List A) → IsSorted xs → IsSorted (limit n xs)
    IsSorted-limit n [] s = tt
    IsSorted-limit n (x ∷ xs) s =
        ground (arith, All-limit (λ y. le x y ≡ true) (n - 1) xs s.0, IsSorted-limit (n - 1) xs)

    pub IsSorted-offset : (n : ℕ) (xs : List A) → IsSorted xs → IsSorted (offset n xs)
    IsSorted-offset n [] s = tt
    IsSorted-offset n (x ∷ xs) s = ground (arith, IsSorted-offset (n - 1) xs)

    place_first : (x : A) (xs : List A) → ((y : A) → le x y ≡ true) → place x xs ≡ x ∷ xs
    place_first x [] h = refl
    place_first x (y ∷ ys) h = rw (h y) refl

    -- Where all rows are equal in the order, the order of the table stays.
    pub sort_trivial : (xs : List A) → ((x y : A) → le x y ≡ true) → sort xs ≡ xs
    sort_trivial [] h = refl
    sort_trivial (x ∷ xs) h = place_first x (sort xs) (h x) ∙ ap (◌∷◌ x) (sort_trivial xs h)

    pub record IsOrder : Type ℓ where
      pub total : (x y : A) → (le x y ≡ true) ⊎ (le y x ≡ true)
      pub trans : (x y z : A) → le x y ≡ true → le y z ≡ true → le x z ≡ true

    module _ (order : IsOrder) where
      place-IsSorted : (x : A) (xs : List A) → IsSorted xs → IsSorted (place x xs)
      place-IsSorted x [] s = (tt, tt)
      place-IsSorted x (y ∷ ys) s = elim (Bool-cases (le x y)) [
        | inl e ↦ rw e ((e, All-mono _ _ ys (λ z h. order.trans x y z e h) s.0), (s.0, s.1))
        | inr e ↦ rw e (
          All-place (λ z. le y z ≡ true) x ys (flipped e (order.total x y)) s.0,
          place-IsSorted x ys s.1,
        )
      ]
        where
          flipped : le x y ≡ false → (le x y ≡ true) ⊎ (le y x ≡ true) → le y x ≡ true
          flipped e (inl h) = absurd (ground arith)
          flipped e (inr h) = h

      pub sort-IsSorted : (xs : List A) → IsSorted (sort xs)
      sort-IsSorted [] = tt
      sort-IsSorted (x ∷ xs) = place-IsSorted x (sort xs) (sort-IsSorted xs)
