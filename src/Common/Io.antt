-- ===== src/Common/Io.antt =====
-- Calls that change a state and may fail: `&mut self` with `Result<A, StdError>`. A failed call
-- keeps what it changed before it failed.
pub mod Keeps
pub mod Succeeds
use Prim.Native.String.{String}
use mathlib.Core.Path.{◌≡◌, refl}
use mathlib.Core.Logic.{◌⊎◌, inl, inr}

pub data Result {ℓ} (A : Type ℓ) : Type ℓ where
  ok : A → Result A
  err : String → Result A

pub Result-cases {ℓ} :
    {A : Type ℓ} (r : Result A) → ((a : A) × (r ≡ ok a)) ⊎ ((e : String) × (r ≡ err e))
Result-cases (ok a) = inl (a, refl)
Result-cases (err e) = inr (e, refl)

abbrev pub Io : Type 0 → Type 0 → Type 0
Io S A = S → Result A × S

module _ {S A : Type 0} where
  abbrev pub pure : A → Io S A
  pure a s = (ok a, s)

  abbrev pub fail : String → Io S A
  fail e s = (err e, s)

  -- The outcome of a call is handed on, `Ok` or `Err`.
  abbrev pub attempt : Io S A → Io S (Result A)
  attempt m s = (ok (m s).0, (m s).1)

module _ {S A B : Type 0} where
  abbrev pub followed_by : Result A × S → (A → Io S B) → Result B × S
  followed_by (ok a, s) f = f a s
  followed_by (err e, s) f = (err e, s)

  -- `?`
  infixl 10 ◌>>=◌
  abbrev pub ◌>>=◌ : Io S A → (A → Io S B) → Io S B
  (m >>= f) s = followed_by (m s) f

  infixl 10 ◌>>◌
  abbrev pub ◌>>◌ : Io S A → Io S B → Io S B
  (m >> n) s = followed_by (m s) (λ a. n)

module _ {S : Type 0} where
  abbrev pub get : Io S S
  get s = (ok s, s)

  abbrev pub modify : (S → S) → Io S (Unit {0})
  modify f s = (ok tt, f s)
