-- ===== src/Common/Order/Larger.antt =====
-- The larger of two values under a total order is a join, on all values.
use Prim.Native.Nat.Ordering.{gt}
use mathlib.Core.Path.{◌≡◌}
use mathlib.Core.Logic.{◌⊎◌}
use native.Mathlib.Omega.{arith}
use para_p2p.Common.Order.{Ord, ◌≺◌, gt_of_lt, cmp_refl, Ordering-cases}

module _ {ℓ} {A : Type ℓ} ⦃o : Ord A⦄ where
  -- `if b > a { b } else { a }`
  unfoldable pub larger : A → A → A
  larger a b = elim (o.cmp b a) [ gt ↦ b | _ ↦ a ]

  pub larger_cases : (a b : A) → (larger a b ≡ a) ⊎ (larger a b ≡ b)
  unfolding larger
  larger_cases a b = ground (arith, Ordering-cases (o.cmp b a))

  pub larger_left : (a b : A) → b ≺ a → larger a b ≡ a
  unfolding larger
  larger_left a b h = ground arith

  pub larger_right : (a b : A) → a ≺ b → larger a b ≡ b
  unfolding larger
  larger_right a b h = ground (arith, gt_of_lt a b)

  pub larger_comm : (a b : A) → larger a b ≡ larger b a
  unfolding larger
  larger_comm a b = ground (arith, o.cmp_reverse a b, o.eq_of_cmp a b)

  pub larger_idem : (a : A) → larger a a ≡ a
  unfolding larger
  larger_idem a = ground (arith, cmp_refl a)

  pub larger_assoc : (a b c : A) → larger (larger a b) c ≡ larger a (larger b c)
  unfolding larger
  larger_assoc a b c = ground (
    arith,
    o.cmp_reverse a b,
    o.cmp_reverse b c,
    o.cmp_reverse a c,
    o.eq_of_cmp a b,
    o.eq_of_cmp b c,
    o.eq_of_cmp a c,
    o.lt_trans a b c,
    o.lt_trans c b a,
  )
