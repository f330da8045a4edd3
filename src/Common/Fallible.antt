-- ===== src/Common/Fallible.antt =====
-- `Result<A, StdError>` without a state: `?` is the bind.
use para_p2p.Common.Io.{Result, ok, err}

module _ {A B : Type 0} where
  infixl 10 ◌>>=◌
  abbrev pub ◌>>=◌ : Result A → (A → Result B) → Result B
  err message >>= next = err message
  ok value >>= next = next value

  -- A check that hands nothing on.
  infixl 10 ◌>>◌
  abbrev pub ◌>>◌ : Result A → Result B → Result B
  check >> rest = check >>= (λ done. rest)
