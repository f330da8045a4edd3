-- ===== src/Common/Order.antt =====
-- Rust's `Ord`: a three-way comparison that is a total order, with `==` read as equality. The
-- instances are those that the crates use: numbers, strings, pairs and options.
pub mod Larger
pub mod Instances
use Prim.Native.Nat.{ℕ, compare, Ordering}
use Prim.Native.Nat.Ordering.{lt, eq, gt}
use Prim.Native.String.{String, then}
use Prim.Native.String
use Prim.Native.String.compare
use mathlib.Core.Path.{◌≡◌, refl, sym, ◌∙◌, ap}
use mathlib.Core.Bool.{Bool, true, false}
use mathlib.Core.Logic.{◌≢◌, ◌⊎◌, inl, inr}
use mathlib.Core.Option.{Option, none, some}
use native.Mathlib.Omega.{arith}
use text.Mathlib.TextEquality.{path_by_compare}

-- `Ordering::reverse`.
abbrev pub reverse : Ordering → Ordering
reverse lt = gt
reverse eq = eq
reverse gt = lt

pub record IsTotal {ℓ} {A : Type ℓ} (cmp : A → A → Ordering) : Type ℓ where
  pub cmp_reverse : (a b : A) → cmp b a ≡ reverse (cmp a b)
  pub eq_of_cmp : (a b : A) → cmp a b ≡ eq → a ≡ b
  pub lt_trans : (a b c : A) → cmp a b ≡ lt → cmp b c ≡ lt → cmp a c ≡ lt

pub record Ord {ℓ} (A : Type ℓ) : Type ℓ where
  pub cmp : A → A → Ordering
  pub total : IsTotal cmp
  pub open total use *

pub Ordering-cases : (o : Ordering) → (o ≡ lt) ⊎ (o ≡ eq) ⊎ (o ≡ gt)
Ordering-cases lt = inl refl
Ordering-cases eq = inr (inl refl)
Ordering-cases gt = inr (inr refl)

infix 50 ◌≺◌
abbrev pub ◌≺◌ {ℓ} : {A : Type ℓ} ⦃o : Ord A⦄ → A → A → Type 0
◌≺◌ ⦃o⦄ a b = o.cmp a b ≡ lt

reverse_self : (o : Ordering) → o ≡ reverse o → o ≡ eq
reverse_self lt h = cc
reverse_self eq h = refl
reverse_self gt h = cc

module _ {ℓ} {A : Type ℓ} ⦃o : Ord A⦄ where
  pub cmp_refl : (a : A) → o.cmp a a ≡ eq
  cmp_refl a = reverse_self _ (o.cmp_reverse a a)

  pub lt_of_gt : (a b : A) → o.cmp a b ≡ gt → b ≺ a
  lt_of_gt a b h = ground (arith, o.cmp_reverse a b)

  pub gt_of_lt : (a b : A) → a ≺ b → o.cmp b a ≡ gt
  gt_of_lt a b h = ground (arith, o.cmp_reverse a b)

  pub gt_trans : (a b c : A) → o.cmp a b ≡ gt → o.cmp b c ≡ gt → o.cmp a c ≡ gt
  gt_trans a b c h k = gt_of_lt c a (o.lt_trans c b a (lt_of_gt b c k) (lt_of_gt a b h))

pub compare-IsTotal : IsTotal compare
compare-IsTotal = ground arith

instance abbrev pub nat_ord : Ord ℕ
nat_ord = record { cmp = compare; total = compare-IsTotal }

module _ {ℓ κ} {A : Type ℓ} {B : Type κ} ⦃a : Ord A⦄ ⦃b : Ord B⦄ where
  -- A tuple, or a struct with a derived order, compares field by field.
  abbrev pub lex : A × B → A × B → Ordering
  lex x y = then (a.cmp x.0 y.0) (b.cmp x.1 y.1)

  lex_trans : (x y z : A × B) → lex x y ≡ lt → lex y z ≡ lt → lex x z ≡ lt
  lex_trans x y z h k = ground (
    arith,
    a.eq_of_cmp x.0 y.0,
    a.eq_of_cmp y.0 z.0,
    a.lt_trans x.0 y.0 z.0,
    b.lt_trans x.1 y.1 z.1,
  )

  pub lex-IsTotal : IsTotal {A = A × B} lex
  lex-IsTotal = record {
    cmp_reverse = λ x y. ground (arith, a.cmp_reverse x.0 y.0, b.cmp_reverse x.1 y.1);
    eq_of_cmp = λ x y. ground (arith, a.eq_of_cmp x.0 y.0, b.eq_of_cmp x.1 y.1);
    lt_trans = lex_trans;
  }

  instance abbrev pub pair_ord : Ord (A × B)
  pair_ord = record { cmp = lex; total = lex-IsTotal }

module _ {ℓ} {A : Type ℓ} ⦃a : Ord A⦄ where
  -- `None` stands before every `Some`.
  abbrev pub cmp_option : Option A → Option A → Ordering
  cmp_option none none = eq
  cmp_option none (some y) = lt
  cmp_option (some x) none = gt
  cmp_option (some x) (some y) = a.cmp x y

  cmp_option_trans :
      (x y z : Option A) → cmp_option x y ≡ lt → cmp_option y z ≡ lt → cmp_option x z ≡ lt
  cmp_option_trans none none z h k = cc
  cmp_option_trans none (some y) none h k = cc
  cmp_option_trans none (some y) (some z) h k = refl
  cmp_option_trans (some x) none z h k = cc
  cmp_option_trans (some x) (some y) none h k = cc
  cmp_option_trans (some x) (some y) (some z) h k = a.lt_trans x y z h k

  cmp_option-reverse : (x y : Option A) → cmp_option y x ≡ reverse (cmp_option x y)
  cmp_option-reverse none none = refl
  cmp_option-reverse none (some y) = refl
  cmp_option-reverse (some x) none = refl
  cmp_option-reverse (some x) (some y) = a.cmp_reverse x y

  eq_of_cmp_option : (x y : Option A) → cmp_option x y ≡ eq → x ≡ y
  eq_of_cmp_option none none h = refl
  eq_of_cmp_option none (some y) h = cc
  eq_of_cmp_option (some x) none h = cc
  eq_of_cmp_option (some x) (some y) h = ap some (a.eq_of_cmp x y h)

  pub cmp_option-IsTotal : IsTotal cmp_option
  cmp_option-IsTotal = record {
    cmp_reverse = cmp_option-reverse;
    eq_of_cmp = eq_of_cmp_option;
    lt_trans = cmp_option_trans;
  }

  instance abbrev pub option_ord : Ord (Option A)
  option_ord = record { cmp = cmp_option; total = cmp_option-IsTotal }

compare-reverse : (s t : String) → String.compare t s ≡ reverse (String.compare s t)
compare-reverse String.[] String.[] = refl
compare-reverse String.[] (String.◌∷◌ d t) =
    ground (arith, compare.nil-cons d t, compare.cons-nil d t)
compare-reverse (String.◌∷◌ c s) String.[] =
    ground (arith, compare.nil-cons c s, compare.cons-nil c s)
compare-reverse (String.◌∷◌ c s) (String.◌∷◌ d t) =
    ground (arith, compare.cons-cons c d s t, compare.cons-cons d c t s, compare-reverse s t)

compare_trans :
    (s t u : String) → String.compare s t ≡ lt → String.compare t u ≡ lt → String.compare s u ≡ lt
compare_trans String.[] String.[] u h k = k
compare_trans (String.◌∷◌ c s) String.[] u h k = ground (arith, compare.cons-nil c s)
compare_trans String.[] (String.◌∷◌ d t) String.[] h k = ground (arith, compare.cons-nil d t)
compare_trans String.[] (String.◌∷◌ d t) (String.◌∷◌ e u) h k = compare.nil-cons e u
compare_trans (String.◌∷◌ c s) (String.◌∷◌ d t) String.[] h k = ground (arith, compare.cons-nil d t)
compare_trans (String.◌∷◌ c s) (String.◌∷◌ d t) (String.◌∷◌ e u) h k = ground (
  arith,
  compare.cons-cons c d s t,
  compare.cons-cons d e t u,
  compare.cons-cons c e s u,
  compare_trans s t u,
)

pub string-IsTotal : IsTotal String.compare
string-IsTotal = record {
  cmp_reverse = compare-reverse;
  eq_of_cmp = path_by_compare;
  lt_trans = compare_trans;
}

-- `str` compares by the bytes of its UTF-8, which is the order of the characters' numbers.
instance abbrev pub string_ord : Ord String
string_ord = record { cmp = String.compare; total = string-IsTotal }

pub unequal : (s t : String) (c : Ordering) → String.compare s t ≡ c → c ≢ eq → s ≢ t
unequal s t c h n p = n (sym h ∙ ap (String.compare s) (sym p) ∙ cmp_refl s)

-- Strings are compared to decide whether they are equal.
unfoldable pub string_discrete : Discrete String
string_discrete s t = decided (String.compare s t) refl
  where
    decided : (c : Ordering) → String.compare s t ≡ c → Dec (s ≡ t)
    decided eq h = yes (path_by_compare s t h)
    decided lt h = no (unequal s t lt h (λ e. cc e))
    decided gt h = no (unequal s t gt h (λ e. cc e))

-- `==` of two strings, as a test.
abbrev pub is_text : String → String → Bool
is_text s t = elim (string_discrete s t) [ yes _ ↦ true | no _ ↦ false ]
