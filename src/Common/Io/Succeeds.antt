-- ===== src/Common/Io/Succeeds.antt =====
-- What succeeded where a sequence of calls succeeds.
use mathlib.Core.Path.{◌≡◌, refl}
use para_p2p.Common.Io.{Io, Result, ok, err, pure, followed_by, ◌>>=◌, ◌>>◌}

pub bind-ok :
    {S A B : Type 0} (m : Io S A) (f : A → Io S B) (s t : S) {b : B}
    → (m >>= f) s ≡ (ok b, t)
    → (a : A) × (u : S) × (m s ≡ (ok a, u)) × (f a u ≡ (ok b, t))
bind-ok m f s t h = at_result (m s) f t h
  where
    at_result :
        {S A B : Type 0} (r : Result A × S) (f : A → Io S B) (t : S) {b : B}
        → followed_by r f ≡ (ok b, t)
        → (a : A) × (u : S) × (r ≡ (ok a, u)) × (f a u ≡ (ok b, t))
    at_result (ok a, u) f t h = (a, u, refl, h)
    at_result (err e, u) f t h = cc

pub then-ok :
    {S A B : Type 0} (m : Io S A) (n : Io S B) (s t : S) {b : B}
    → (m >> n) s ≡ (ok b, t)
    → (a : A) × (u : S) × (m s ≡ (ok a, u)) × (n u ≡ (ok b, t))
then-ok m n s t h = bind-ok m (λ a. n) s t h

pub pure-ok : {S A : Type 0} (a b : A) (s t : S) → pure a s ≡ (ok b, t) → (a ≡ b) × (s ≡ t)
pure-ok a b s t h = (cc, cc)
