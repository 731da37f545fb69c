-- ===== src/Base/Tables.antt =====
-- A table as the list of its rows, and the four shapes of statement over one: SELECT, UPDATE and
-- DELETE with a WHERE clause, and the lookup of one row.
use Prim.Native.Nat.{ℕ, suc, ◌+◌}
use mathlib.Core.Path.{◌≡◌, refl}
use mathlib.Core.Bool.{Bool, true, false}
use mathlib.Core.Option.{Option, none, some}
use mathlib.Core.List.{List, [], ◌∷◌, ◌++◌}
use native.Mathlib.Omega.{arith}
use cron_lib.Base.Tests.{if◌then◌else◌}

module _ {ℓ} {A : Type ℓ} where
  abbrev pub length : List A → ℕ
  length [] = 0
  length (x ∷ xs) = suc (length xs)

  abbrev pub select_where : (A → Bool) → List A → List A
  select_where p [] = []
  select_where p (x ∷ xs) = if p x then x ∷ select_where p xs else select_where p xs

  abbrev pub find_where : (A → Bool) → List A → Option A
  find_where p [] = none
  find_where p (x ∷ xs) = if p x then some x else find_where p xs

  abbrev pub update_where : (A → Bool) → (A → A) → List A → List A
  update_where p f [] = []
  update_where p f (x ∷ xs) = (if p x then f x else x) ∷ update_where p f xs

  abbrev pub delete_where : (A → Bool) → List A → List A
  delete_where p [] = []
  delete_where p (x ∷ xs) = if p x then delete_where p xs else x ∷ delete_where p xs

  abbrev pub count_where : (A → Bool) → List A → ℕ
  count_where p xs = length (select_where p xs)

  -- Every row, and no two rows, of a table.
  abbrev pub All {κ} : (A → Type κ) → List A → Type κ
  All P [] = Unit
  All P (x ∷ xs) = P x × All P xs

  -- A unique constraint: no later row clashes with an earlier one.
  abbrev pub Distinct : (A → A → Bool) → List A → Type 0
  Distinct clash [] = Unit
  Distinct clash (x ∷ xs) = All (λ y. clash x y ≡ false) xs × Distinct clash xs

  pub All-update {κ} :
      (P : A → Type κ) (p : A → Bool) (f : A → A) (xs : List A)
      → ((x : A) → P x → P (f x))
      → All P xs
      → All P (update_where p f xs)
  All-update P p f [] h a = tt
  All-update P p f (x ∷ xs) h a = ground (arith, h x, All-update P p f xs h)

  pub All-delete {κ} :
      (P : A → Type κ) (p : A → Bool) (xs : List A) → All P xs → All P (delete_where p xs)
  All-delete P p [] a = tt
  All-delete P p (x ∷ xs) a = ground (arith, All-delete P p xs)

  pub All-select {κ} :
      (P : A → Type κ) (p : A → Bool) (xs : List A) → All P xs → All P (select_where p xs)
  All-select P p [] a = tt
  All-select P p (x ∷ xs) a = ground (arith, All-select P p xs)

  pub Distinct-delete :
      (clash : A → A → Bool) (p : A → Bool) (xs : List A)
      → Distinct clash xs
      → Distinct clash (delete_where p xs)
  Distinct-delete clash p [] d = tt
  Distinct-delete clash p (x ∷ xs) d =
      ground (arith, All-delete (λ y. clash x y ≡ false) p xs d.0, Distinct-delete clash p xs d.1)

  -- An update that leaves the constrained columns alone keeps the constraint.
  pub All-update_clash :
      (clash : A → A → Bool) (p : A → Bool) (f : A → A) (x x' : A) (xs : List A)
      → ((y : A) → clash x' y ≡ clash x y)
      → ((z y : A) → clash z (f y) ≡ clash z y)
      → All (λ y. clash x y ≡ false) xs
      → All (λ y. clash x' y ≡ false) (update_where p f xs)
  All-update_clash clash p f x x' [] l r a = tt
  All-update_clash clash p f x x' (y ∷ ys) l r a =
      ground (arith, l y, r x' y, All-update_clash clash p f x x' ys l r a.1)

  pub Distinct-update :
      (clash : A → A → Bool) (p : A → Bool) (f : A → A) (xs : List A)
      → ((z y : A) → clash (f z) y ≡ clash z y)
      → ((z y : A) → clash z (f y) ≡ clash z y)
      → Distinct clash xs
      → Distinct clash (update_where p f xs)
  Distinct-update clash p f [] l r d = tt
  Distinct-update clash p f (x ∷ xs) l r d = ground (
    arith,
    All-update_clash clash p f x (f x) xs (l x) r d.0,
    All-update_clash clash p f x x xs (λ y. refl) r d.0,
    Distinct-update clash p f xs l r d.1,
  )

  -- Rows outside the WHERE clause are the same before and after.
  pub select-update_frame :
      (q p : A → Bool) (f : A → A) (xs : List A)
      → ((x : A) → p x ≡ true → q x ≡ false)
      → ((x : A) → p x ≡ true → q (f x) ≡ false)
      → select_where q (update_where p f xs) ≡ select_where q xs
  select-update_frame q p f [] h k = refl
  select-update_frame q p f (x ∷ xs) h k =
      ground (arith, h x, k x, select-update_frame q p f xs h k)

  pub select-delete_frame :
      (q p : A → Bool) (xs : List A)
      → ((x : A) → p x ≡ true → q x ≡ false)
      → select_where q (delete_where p xs) ≡ select_where q xs
  select-delete_frame q p [] h = refl
  select-delete_frame q p (x ∷ xs) h = ground (arith, h x, select-delete_frame q p xs h)

  pub length-update :
      (p : A → Bool) (f : A → A) (xs : List A) → length (update_where p f xs) ≡ length xs
  length-update p f [] = refl
  length-update p f (x ∷ xs) = omega (arith, length-update p f xs)

  -- What a DELETE leaves and what it removes are the whole table.
  pub length-delete :
      (p : A → Bool) (xs : List A) → length (delete_where p xs) + count_where p xs ≡ length xs
  length-delete p [] = omega arith
  length-delete p (x ∷ xs) = ground (arith, length-delete p xs)

  pub select-update_none :
      (q p : A → Bool) (f : A → A) (xs : List A)
      → ((x : A) → q x ≡ true → p x ≡ true)
      → ((x : A) → p x ≡ true → q (f x) ≡ false)
      → select_where q (update_where p f xs) ≡ []
  select-update_none q p f [] h k = refl
  select-update_none q p f (x ∷ xs) h k = ground (arith, h x, k x, select-update_none q p f xs h k)

  pub select-delete_none :
      (q p : A → Bool) (xs : List A)
      → ((x : A) → q x ≡ true → p x ≡ true)
      → select_where q (delete_where p xs) ≡ []
  select-delete_none q p [] h = refl
  select-delete_none q p (x ∷ xs) h = ground (arith, h x, select-delete_none q p xs h)

  pub find-eq-none-All :
      (p : A → Bool) (xs : List A) → find_where p xs ≡ none → All (λ x. p x ≡ false) xs
  find-eq-none-All p [] e = tt
  find-eq-none-All p (x ∷ xs) e = ground (arith, find-eq-none-All p xs)

  -- A lookup by columns that the UPDATE leaves alone finds the same row, updated.
  pub find-update :
      (q p : A → Bool) (f : A → A) (xs : List A) (r : A)
      → ((x : A) → q (f x) ≡ q x)
      → find_where q xs ≡ some r
      → find_where q (update_where p f xs) ≡ some (if p r then f r else r)
  find-update q p f [] r h e = ground arith
  find-update q p f (x ∷ xs) r h e = ground (arith, h x, find-update q p f xs r h)

  pub find-delete :
      (q p : A → Bool) (xs : List A) (r : A)
      → p r ≡ false
      → find_where q xs ≡ some r
      → find_where q (delete_where p xs) ≡ some r
  find-delete q p [] r h e = ground arith
  find-delete q p (x ∷ xs) r h e = ground (arith, find-delete q p xs r h)

  pub find-snoc :
      (q : A → Bool) (xs : List A) (y : A) (r : A)
      → find_where q xs ≡ some r
      → find_where q (xs ++ y ∷ []) ≡ some r
  find-snoc q [] y r e = ground arith
  find-snoc q (x ∷ xs) y r e = ground (arith, find-snoc q xs y r)

  pub find-holds : (q : A → Bool) (xs : List A) (r : A) → find_where q xs ≡ some r → q r ≡ true
  find-holds q [] r e = ground arith
  find-holds q (x ∷ xs) r e = ground (arith, find-holds q xs r)

  pub find-eq-none_at :
      (q p : A → Bool) (xs : List A) (r : A)
      → find_where q xs ≡ none
      → find_where p xs ≡ some r
      → q r ≡ false
  find-eq-none_at q p [] r n e = ground arith
  find-eq-none_at q p (x ∷ xs) r n e = ground (arith, find-eq-none_at q p xs r)

  -- An UPDATE that takes its rows out of a class.
  pub count-update_out :
      (q p : A → Bool) (f : A → A) (xs : List A)
      → ((x : A) → p x ≡ true → q x ≡ true)
      → ((x : A) → p x ≡ true → q (f x) ≡ false)
      → count_where q (update_where p f xs) + count_where p xs ≡ count_where q xs
  count-update_out q p f [] h k = omega arith
  count-update_out q p f (x ∷ xs) h k = ground (arith, h x, k x, count-update_out q p f xs h k)

  pub find-snoc_new :
      (q : A → Bool) (xs : List A) (y : A)
      → find_where q xs ≡ none
      → q y ≡ true
      → find_where q (xs ++ y ∷ []) ≡ some y
  find-snoc_new q [] y e h = ground arith
  find-snoc_new q (x ∷ xs) y e h = ground (arith, find-snoc_new q xs y)

  -- A row at the end of the table.
  pub All-snoc {κ} : (P : A → Type κ) (xs : List A) (x : A) → All P xs → P x → All P (xs ++ x ∷ [])
  All-snoc P [] x a h = (h, tt)
  All-snoc P (y ∷ ys) x a h = (a.0, All-snoc P ys x a.1 h)

  pub Distinct-snoc :
      (clash : A → A → Bool) (xs : List A) (x : A)
      → All (λ y. clash y x ≡ false) xs
      → Distinct clash xs
      → Distinct clash (xs ++ x ∷ [])
  Distinct-snoc clash [] x a d = (tt, tt)
  Distinct-snoc clash (y ∷ ys) x a d =
      (All-snoc (λ z. clash y z ≡ false) ys x d.0 a.0, Distinct-snoc clash ys x a.1 d.1)

  pub All-mono {κ ι} :
      (P : A → Type κ) (Q : A → Type ι) (xs : List A) → ((x : A) → P x → Q x) → All P xs → All Q xs
  All-mono P Q [] h a = tt
  All-mono P Q (x ∷ xs) h a = (h x a.0, All-mono P Q xs h a.1)

  pub All-both {κ ι ο} :
      (P : A → Type κ) (Q : A → Type ι) (R : A → Type ο) (xs : List A)
      → ((x : A) → P x → Q x → R x)
      → All P xs
      → All Q xs
      → All R xs
  All-both P Q R [] h a b = tt
  All-both P Q R (x ∷ xs) h a b = (h x a.0 b.0, All-both P Q R xs h a.1 b.1)
