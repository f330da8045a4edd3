-- ===== src/Para/Values/Outcome.antt =====
-- A chain of fallible calls that succeeded, taken apart.
use para_p2p.Common.{◌≡◌, refl, subst, arith}
use para_p2p.Common.Io.{Result, ok, err}
use para_p2p.Para.Values.{map_ok, and_then}

pub map_ok-ok :
    {A B : Type 0} (f : A → B) (r : Result A) (b : B)
    → map_ok f r ≡ ok b
    → (a : A) × (r ≡ ok a) × (f a ≡ b)
map_ok-ok f (ok a) b h = (a, refl, ground arith)
map_ok-ok f (err e) b h = cc

pub and_then-ok :
    {A B : Type 0} (r : Result A) (f : A → Result B) (b : B)
    → and_then r f ≡ ok b
    → (a : A) × (r ≡ ok a) × (f a ≡ ok b)
and_then-ok (ok a) f b h = (a, refl, h)
and_then-ok (err e) f b h = cc

-- Two successes with one outcome have the same properties.
pub ok_has : {A : Type 0} (P : A → Type 0) {a b : A} → P a → ok a ≡ ok b → P b
ok_has P p h = subst P (ground arith) p
