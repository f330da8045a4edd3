-- ===== src/Common/Order/Instances.antt =====
-- `Ord` of more of Rust's types: booleans, signed integers and vectors.
use Prim.Native.Nat.{◌+◌, compare, Ordering}
use Prim.Native.Nat.Ordering.{lt, eq, gt}
use Prim.Native.String.{then}
use mathlib.Core.Path.{◌≡◌, refl}
use mathlib.Core.Bool.{Bool, true, false}
use mathlib.Core.List.{List, [], ◌∷◌}
use native.Mathlib.Omega.{arith}
use para_p2p.Common.Int.{ℤ, pos_part, neg_part}
use para_p2p.Common.Order.{Ord, IsTotal, reverse}

-- `false` stands before `true`.
abbrev pub cmp_bool : Bool → Bool → Ordering
cmp_bool false false = eq
cmp_bool false true = lt
cmp_bool true false = gt
cmp_bool true true = eq

pub cmp_bool-IsTotal : IsTotal cmp_bool
cmp_bool-IsTotal = record {
  cmp_reverse = λ a b. ground arith;
  eq_of_cmp = λ a b. ground arith;
  lt_trans = λ a b c. ground arith;
}

instance abbrev pub bool_ord : Ord Bool
bool_ord = record { cmp = cmp_bool; total = cmp_bool-IsTotal }

abbrev pub cmp_int : ℤ → ℤ → Ordering
cmp_int a b = compare (pos_part a + neg_part b) (pos_part b + neg_part a)

pub cmp_int-IsTotal : IsTotal cmp_int
cmp_int-IsTotal = record {
  cmp_reverse = λ a b. ground arith;
  eq_of_cmp = λ a b. ground arith;
  lt_trans = λ a b c. ground arith;
}

instance abbrev pub int_ord : Ord ℤ
int_ord = record { cmp = cmp_int; total = cmp_int-IsTotal }

module _ {ℓ} {A : Type ℓ} ⦃o : Ord A⦄ where
  -- A vector compares element by element, and a prefix stands first.
  abbrev pub cmp_list : List A → List A → Ordering
  cmp_list [] [] = eq
  cmp_list [] (b ∷ ys) = lt
  cmp_list (a ∷ xs) [] = gt
  cmp_list (a ∷ xs) (b ∷ ys) = then (o.cmp a b) (cmp_list xs ys)

  cmp_list-reverse : (xs ys : List A) → cmp_list ys xs ≡ reverse (cmp_list xs ys)
  cmp_list-reverse [] [] = refl
  cmp_list-reverse [] (b ∷ ys) = refl
  cmp_list-reverse (a ∷ xs) [] = refl
  cmp_list-reverse (a ∷ xs) (b ∷ ys) = ground (arith, o.cmp_reverse a b, cmp_list-reverse xs ys)

  eq_of_cmp_list : (xs ys : List A) → cmp_list xs ys ≡ eq → xs ≡ ys
  eq_of_cmp_list [] [] h = refl
  eq_of_cmp_list [] (b ∷ ys) h = cc
  eq_of_cmp_list (a ∷ xs) [] h = cc
  eq_of_cmp_list (a ∷ xs) (b ∷ ys) h = ground (arith, o.eq_of_cmp a b, eq_of_cmp_list xs ys)

  cmp_list_trans :
      (xs ys zs : List A) → cmp_list xs ys ≡ lt → cmp_list ys zs ≡ lt → cmp_list xs zs ≡ lt
  cmp_list_trans [] [] zs h k = cc
  cmp_list_trans [] (b ∷ ys) [] h k = cc
  cmp_list_trans [] (b ∷ ys) (c ∷ zs) h k = refl
  cmp_list_trans (a ∷ xs) [] zs h k = cc
  cmp_list_trans (a ∷ xs) (b ∷ ys) [] h k = cc
  cmp_list_trans (a ∷ xs) (b ∷ ys) (c ∷ zs) h k =
      ground (arith, o.eq_of_cmp a b, o.eq_of_cmp b c, o.lt_trans a b c, cmp_list_trans xs ys zs)

  pub cmp_list-IsTotal : IsTotal cmp_list
  cmp_list-IsTotal = record {
    cmp_reverse = cmp_list-reverse;
    eq_of_cmp = eq_of_cmp_list;
    lt_trans = cmp_list_trans;
  }

  instance abbrev pub list_ord : Ord (List A)
  list_ord = record { cmp = cmp_list; total = cmp_list-IsTotal }
