-- ===== src/Base/Lookups.antt =====
-- The lookup of one row after an UPDATE or a DELETE.
use mathlib.Core.Path.{◌≡◌, refl}
use mathlib.Core.Bool.{Bool, true, false}
use mathlib.Core.Option.{none, some}
use mathlib.Core.List.{List, [], ◌∷◌}
use native.Mathlib.Omega.{arith}
use cron_lib.Base.Tables.{find_where, update_where, delete_where}

module _ {ℓ} {A : Type ℓ} where
  pub find-delete_none : (p : A → Bool) (xs : List A) → find_where p (delete_where p xs) ≡ none
  find-delete_none p [] = refl
  find-delete_none p (x ∷ xs) = ground (arith, find-delete_none p xs)

  -- The rows that are deleted are not among those that are looked for.
  pub find-delete_frame :
      (q p : A → Bool) (xs : List A)
      → ((x : A) → p x ≡ true → q x ≡ false)
      → find_where q (delete_where p xs) ≡ find_where q xs
  find-delete_frame q p [] h = refl
  find-delete_frame q p (x ∷ xs) h = ground (arith, find-delete_frame q p xs h, h x)

  pub find-update_frame :
      (q p : A → Bool) (f : A → A) (xs : List A)
      → ((x : A) → p x ≡ true → q x ≡ false)
      → ((x : A) → p x ≡ true → q (f x) ≡ false)
      → find_where q (update_where p f xs) ≡ find_where q xs
  find-update_frame q p f [] h k = refl
  find-update_frame q p f (x ∷ xs) h k = ground (arith, find-update_frame q p f xs h k, h x, k x)

  -- An update of the looked-up rows.
  pub find-update_some :
      (p : A → Bool) (f : A → A) (xs : List A) (r : A)
      → ((x : A) → p x ≡ true → p (f x) ≡ true)
      → find_where p xs ≡ some r
      → find_where p (update_where p f xs) ≡ some (f r)
  find-update_some p f [] r h e = ground arith
  find-update_some p f (x ∷ xs) r h e = ground (arith, find-update_some p f xs r h, h x)

  pub find-update_none :
      (p : A → Bool) (f : A → A) (xs : List A) → find_where p xs ≡ none → update_where p f xs ≡ xs
  find-update_none p f [] e = refl
  find-update_none p f (x ∷ xs) e = ground (arith, find-update_none p f xs)
