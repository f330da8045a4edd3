-- ===== src/Common/Io/Keeps.antt =====
-- Invariants of calls: what holds of the state before a call holds after it, failed or not.
use para_p2p.Common.Basics.{if◌then◌else◌}
use mathlib.Core.Bool.{Bool, true, false}
use mathlib.Core.Path.{◌≡◌, refl}
use para_p2p.Common.Io.{Io, Result, ok, err, followed_by, ◌>>=◌, ◌>>◌}

module _ {ℓ} {S : Type 0} (I : S → Type ℓ) where
  abbrev pub Keeps : {A : Type 0} → Io S A → Type ℓ
  Keeps m = (s : S) → I s → I (m s).1

  followed_by-Keeps :
      {A B : Type 0} (r : Result A × S) (f : A → Io S B)
      → I r.1
      → ((a : A) → Keeps (f a))
      → I (followed_by r f).1
  followed_by-Keeps (ok a, s) f h k = k a s h
  followed_by-Keeps (err e, s) f h k = h

  pub bind-Keeps :
      {A B : Type 0} (m : Io S A) (f : A → Io S B)
      → Keeps m
      → ((a : A) → Keeps (f a))
      → Keeps (m >>= f)
  bind-Keeps m f h k s i = followed_by-Keeps (m s) f (h s i) k

  pub then-Keeps : {A B : Type 0} (m : Io S A) (n : Io S B) → Keeps m → Keeps n → Keeps (m >> n)
  then-Keeps m n h k s i = followed_by-Keeps (m s) (λ a. n) (h s i) (λ a. k)

  pub if-Keeps :
      {A : Type 0} (b : Bool) (m n : Io S A)
      → (b ≡ true → Keeps m)
      → (b ≡ false → Keeps n)
      → Keeps (if b then m else n)
  if-Keeps true m n h k = h refl
  if-Keeps false m n h k = k refl
