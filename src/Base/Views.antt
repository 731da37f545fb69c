-- ===== src/Base/Views.antt =====
-- The statements on a table and on the rows of a class of it, such as the rows of one tenant.
use mathlib.Core.Path.{◌≡◌, refl}
use mathlib.Core.Bool.{Bool, true}
use mathlib.Core.List.{List, [], ◌∷◌, map}
use native.Mathlib.Omega.{arith}
use cron_lib.Base.Tables.{find_where, select_where, update_where, delete_where, All}

module _ {ℓ} {A : Type ℓ} where
  -- A WHERE clause that implies the class looks for the same in the class alone.
  pub find-select :
      (q p : A → Bool) (xs : List A)
      → ((x : A) → q x ≡ true → p x ≡ true)
      → find_where q (select_where p xs) ≡ find_where q xs
  find-select q p [] h = refl
  find-select q p (x ∷ xs) h = ground (arith, h x, find-select q p xs h)

  pub select-select :
      (q p : A → Bool) (xs : List A)
      → ((x : A) → q x ≡ true → p x ≡ true)
      → select_where q (select_where p xs) ≡ select_where q xs
  select-select q p [] h = refl
  select-select q p (x ∷ xs) h = ground (arith, h x, select-select q p xs h)

  pub select-delete :
      (q p : A → Bool) (xs : List A)
      → delete_where q (select_where p xs) ≡ select_where p (delete_where q xs)
  select-delete q p [] = refl
  select-delete q p (x ∷ xs) = ground (arith, select-delete q p xs)

  -- An UPDATE that moves no row into or out of the class.
  pub select-update :
      (q p : A → Bool) (f : A → A) (xs : List A)
      → ((x : A) → p (f x) ≡ p x)
      → update_where q f (select_where p xs) ≡ select_where p (update_where q f xs)
  select-update q p f [] h = refl
  select-update q p f (x ∷ xs) h = ground (arith, h x, select-update q p f xs h)

  pub All-selected : (p : A → Bool) (xs : List A) → All (λ x. p x ≡ true) (select_where p xs)
  All-selected p [] = tt
  All-selected p (x ∷ xs) = ground (arith, All-selected p xs)

pub map-All :
    {A B : Type 0} (P : A → Type 0) (f g : A → B) (xs : List A)
    → ((x : A) → P x → f x ≡ g x)
    → All P xs
    → map f xs ≡ map g xs
map-All P f g [] h a = refl
map-All P f g (x ∷ xs) h a = rw (h x a.0, map-All P f g xs h a.1) refl
