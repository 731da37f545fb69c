-- ===== src/Lists/Orders.antt =====
-- The comparison of two rows by a column, ascending or descending, as an order.
use cron_lib.Base.{
  ◌≡◌, refl, String, str_eq, Bool, true, false, not, ◌||◌, Option, none, some, leb, if◌then◌else◌,
  arith, ◌⊎◌, inl, inr,
}
use cron_lib.Base.Sorting.{IsOrder}
use cron_lib.Lists.{
  Column, text_column, number_column, flag_column, no_column, option_le, column_le, order_le,
}

leb-IsOrder : IsOrder leb
leb-IsOrder = record { total = λ x y. ground arith; trans = λ x y z h k. ground arith }

flag-total : (a b : Bool) → ((not a || b) ≡ true) ⊎ ((not b || a) ≡ true)
flag-total true b = inr (ground arith)
flag-total false b = inl refl

flag_trans : (a b c : Bool) → (not a || b) ≡ true → (not b || c) ≡ true → (not a || c) ≡ true
flag_trans true true c h k = k
flag_trans true false c h k = ground arith
flag_trans false b c h k = refl

module _ {B : Type 0} (le : B → B → Bool) (order : IsOrder le) where
  option-total : (a b : Option B) → (option_le le a b ≡ true) ⊎ (option_le le b a ≡ true)
  option-total none none = inl refl
  option-total none (some b) = inr refl
  option-total (some a) none = inl refl
  option-total (some a) (some b) = order.total a b

  option_trans :
      (a b c : Option B)
      → option_le le a b ≡ true
      → option_le le b c ≡ true
      → option_le le a c ≡ true
  option_trans none none none h k = refl
  option_trans none none (some c) h k = k
  option_trans none (some b) c h k = absurd (ground arith)
  option_trans (some a) b none h k = refl
  option_trans (some a) none (some c) h k = absurd (ground arith)
  option_trans (some a) (some b) (some c) h k = order.trans a b c h k

module _ (like text_le : String → String → Bool) (text_order : IsOrder text_le) where
  column-IsOrder : {A : Type 0} (column : Column A) → IsOrder (column_le like text_le column)
  column-IsOrder (text_column f) = record {
    total = λ r s. option-total text_le text_order (f r) (f s);
    trans = λ r s t. option_trans text_le text_order (f r) (f s) (f t);
  }
  column-IsOrder (number_column f) = record {
    total = λ r s. option-total leb leb-IsOrder (f r) (f s);
    trans = λ r s t. option_trans leb leb-IsOrder (f r) (f s) (f t);
  }
  column-IsOrder (flag_column f) = record {
    total = λ r s. flag-total (f r) (f s);
    trans = λ r s t. flag_trans (f r) (f s) (f t);
  }
  column-IsOrder no_column = record { total = λ r s. inl refl; trans = λ r s t h k. refl }

  swap : {P Q : Type 0} → P ⊎ Q → Q ⊎ P
  swap (inl p) = inr p
  swap (inr q) = inl q

  directed-IsOrder :
      {A : Type 0} (asc : Bool) (column : Column A)
      → IsOrder (λ r s.
        if asc then column_le like text_le column r s else column_le like text_le column s r)
  directed-IsOrder true column = column-IsOrder column
  directed-IsOrder false column =
      let c = column-IsOrder column in
      record { total = λ r s. swap (c.total r s); trans = λ r s t h k. c.trans t s r k h }

  pub order-IsOrder :
      {A : Type 0} (order : String) (column : Column A)
      → IsOrder (order_le like text_le order column)
  order-IsOrder order column = directed-IsOrder (str_eq order "asc") column
