-- ===== src/Common/HashMap.antt =====
-- `HashMap` of the standard library. Its order is never read, so a map is its lookup.
use Prim.Native.Nat.{ℕ}
use Prim.Native.String.{String}
use native.Mathlib.Decide.{ℕ_discrete}
use mathlib.Core.Path.{◌≡◌}
use mathlib.Core.Logic.{◌≢◌}
use mathlib.Core.Option.{Option, none, some}
use native.Mathlib.Omega.{arith}
use para_p2p.Common.Order.{string_discrete}

-- Rust's `Eq`, decided.
pub record Eq {ℓ} (K : Type ℓ) : Type ℓ where
  pub decide : Discrete K

instance abbrev pub string_eq : Eq String
string_eq = record { decide = string_discrete }

instance abbrev pub nat_eq : Eq ℕ
nat_eq = record { decide = ℕ_discrete }

abbrev pub HashMap {ℓ κ} : Type ℓ → Type κ → Type (ℓ ⊔ κ)
HashMap K V = K → Option V

module _ {ℓ κ} {K : Type ℓ} {V : Type κ} where
  abbrev pub empty : HashMap K V
  empty k = none

  abbrev pub get : HashMap K V → K → Option V
  get m k = m k

module _ {ℓ κ} {K : Type ℓ} {V : Type κ} ⦃e : Eq K⦄ where
  abbrev pub insert : K → V → HashMap K V → HashMap K V
  insert k v m q = elim (e.decide q k) [ yes p ↦ some v | no p ↦ m q ]

  pub insert_self : (k : K) (v : V) (m : HashMap K V) → insert k v m k ≡ some v
  insert_self k v m = ground arith

  pub insert_ne : (k q : K) (v : V) (m : HashMap K V) → q ≢ k → insert k v m q ≡ m q
  insert_ne k q v m h = ground arith
