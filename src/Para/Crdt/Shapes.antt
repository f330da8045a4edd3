-- ===== src/Para/Crdt/Shapes.antt =====
-- The arguments that fit a signature, taken apart.
use para_p2p.Common.{ℕ, String, true, List, [], ◌∷◌, ◌≡◌, sym, subst}
use para_p2p.Common.Int.{pos, negsuc}
use para_p2p.Para.Crdt.{Setting, ExternValue, Arg}
use para_p2p.Para.Crdt.Conforms.{is_kind, FitsAll}
use para_p2p.Para.Crdt.Signatures.{SigType}
use para_p2p.Para.Native.{Scalar, NativeValue}

module _ {S : Setting} (P : List (Arg S) → Type 0) where
  pub no_argument : P [] → (args : List (Arg S)) → FitsAll S [] args → P args
  no_argument p [] h = p
  no_argument p (x ∷ xs) h = absurd h

  pub a_string :
      ((s : String) → P (NativeValue.str s ∷ []))
      → (args : List (Arg S)) → FitsAll S (SigType.string ∷ []) args
      → P args
  a_string p [] h = absurd h
  a_string p (x ∷ []) ((s, e), h) = subst (λ y. P (y ∷ [])) (sym e) (p s)
  a_string p (x ∷ y ∷ xs) (a, h) = absurd h

  pub a_bytes :
      ((b : List ℕ) → P (NativeValue.bytes b ∷ []))
      → (args : List (Arg S)) → FitsAll S (SigType.bytes ∷ []) args
      → P args
  a_bytes p [] h = absurd h
  a_bytes p (x ∷ []) ((b, e), h) = subst (λ y. P (y ∷ [])) (sym e) (p b)
  a_bytes p (x ∷ y ∷ xs) (a, h) = absurd h

  pub a_value :
      ((x : Arg S) → P (x ∷ []))
      → (args : List (Arg S)) → FitsAll S (SigType.any ∷ []) args
      → P args
  a_value p [] h = absurd h
  a_value p (x ∷ []) h = p x
  a_value p (x ∷ y ∷ xs) (a, h) = absurd h

  pub two_strings :
      ((s t : String) → P (NativeValue.str s ∷ NativeValue.str t ∷ []))
      → (args : List (Arg S)) → FitsAll S (SigType.string ∷ SigType.string ∷ []) args
      → P args
  two_strings p [] h = absurd h
  two_strings p (x ∷ []) (a, h) = absurd h
  two_strings p (x ∷ y ∷ []) ((s, e), ((t, f), h)) =
      subst (λ z. P (z ∷ y ∷ [])) (sym e)
        (subst (λ z. P (NativeValue.str s ∷ z ∷ [])) (sym f) (p s t))
  two_strings p (x ∷ y ∷ z ∷ xs) (a, (b, h)) = absurd h

  pub string_and_value :
      ((s : String) (x : Arg S) → P (NativeValue.str s ∷ x ∷ []))
      → (args : List (Arg S)) → FitsAll S (SigType.string ∷ SigType.any ∷ []) args
      → P args
  string_and_value p [] h = absurd h
  string_and_value p (x ∷ []) (a, h) = absurd h
  string_and_value p (x ∷ y ∷ []) ((s, e), h) = subst (λ z. P (z ∷ y ∷ [])) (sym e) (p s y)
  string_and_value p (x ∷ y ∷ z ∷ xs) (a, (b, h)) = absurd h

  -- The amount may be left out.
  pub string_and_amount :
      ((s : String) → P (NativeValue.str s ∷ []))
      → ((s : String) (n : ℕ)
          → P (NativeValue.str s ∷ NativeValue.scalar (Scalar.int (pos n)) ∷ []))
      → ((s : String) (n : ℕ)
          → P (NativeValue.str s ∷ NativeValue.scalar (Scalar.int (negsuc n)) ∷ []))
      → (args : List (Arg S)) → FitsAll S (SigType.string ∷ SigType.optional SigType.int ∷ []) args
      → P args
  string_and_amount p q r [] h = absurd h
  string_and_amount p q r (x ∷ []) ((s, e), h) = subst (λ y. P (y ∷ [])) (sym e) (p s)
  string_and_amount p q r (x ∷ y ∷ []) ((s, e), ((pos n, f), h)) =
      subst (λ z. P (z ∷ y ∷ [])) (sym e)
        (subst (λ z. P (NativeValue.str s ∷ z ∷ [])) (sym f) (q s n))
  string_and_amount p q r (x ∷ y ∷ []) ((s, e), ((negsuc n, f), h)) =
      subst (λ z. P (z ∷ y ∷ [])) (sym e)
        (subst (λ z. P (NativeValue.str s ∷ z ∷ [])) (sym f) (r s n))
  string_and_amount p q r (x ∷ y ∷ z ∷ xs) (a, (b, h)) = absurd h

  pub a_box :
      {A : Type 0} (name : String) (box : A → ExternValue S)
      → ((e : ExternValue S) → is_kind S name e ≡ true → (a : A) × (e ≡ box a))
      → ((a : A) → P (NativeValue.extern (box a) ∷ []))
      → (args : List (Arg S)) → FitsAll S (SigType.named name ∷ []) args
      → P args
  a_box name box unbox p [] h = absurd h
  a_box name box unbox p (x ∷ []) ((e, f, k), h) =
      let (a, g) = unbox e k in
      subst (λ y. P (y ∷ [])) (sym f) (subst (λ b. P (NativeValue.extern b ∷ [])) (sym g) (p a))
  a_box name box unbox p (x ∷ y ∷ xs) (a, h) = absurd h
