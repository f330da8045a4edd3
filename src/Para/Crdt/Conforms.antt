-- ===== src/Para/Crdt/Conforms.antt =====
-- What it means that arguments fit a signature, and that an answer does.
use mathlib.Core.List.{Memᴰ}
use para_p2p.Common.{ℕ, String, Bool, true, false, List, [], ◌∷◌, ◌≡◌, refl, ◌⊎◌, inr, All}
use para_p2p.Common.Fallible.{◌>>=◌}
use para_p2p.Common.Int.{ℤ, negsuc}
use para_p2p.Common.Io.{Result, ok, err}
use para_p2p.Common.Order.{is_text, string_discrete}
use para_p2p.Crdt.GCounter.{GCounter}
use para_p2p.Crdt.GSet.{GSet}
use para_p2p.Crdt.Lww.{LwwRegister}
use para_p2p.Crdt.OrSet.{OrSet}
use para_p2p.Crdt.PnCounter.{PnCounter}
use para_p2p.Para.AutoDoc.{AutoDoc}
use para_p2p.Para.Crdt.{Setting, Value, ExternValue, Arg, Out, type_identity, negative_amount}
use para_p2p.Para.Crdt.Signatures.{SigType, ExtFn}
use para_p2p.Para.Native.{Scalar, NativeValue, NativeOut, OutItems}
use para_p2p.Para.Values.{from_native}

module _ (S : Setting) where
  -- A box holds a value of the type of this name.
  unfoldable pub is_kind : String → ExternValue S → Bool
  is_kind name (ExternValue.gcounter c) = is_text name "GCounter"
  is_kind name (ExternValue.pncounter c) = is_text name "PnCounter"
  is_kind name (ExternValue.gset s) = is_text name "GSet"
  is_kind name (ExternValue.lww r) = is_text name "LwwRegister"
  is_kind name (ExternValue.orset s) = is_text name "OrSet"
  is_kind name (ExternValue.autodoc d) = is_text name "AutoDoc"
  is_kind name (ExternValue.other o) = false

  -- The argument is of the type.
  abbrev pub Fits : SigType → Arg S → Type 0
  Fits SigType.string x = (s : String) × (x ≡ NativeValue.str s)
  Fits SigType.int x = (n : ℤ) × (x ≡ NativeValue.scalar (Scalar.int n))
  Fits SigType.bytes x = (b : List ℕ) × (x ≡ NativeValue.bytes b)
  Fits SigType.any x = Unit
  Fits (SigType.named name) x =
      (e : ExternValue S) × (x ≡ NativeValue.extern e) × (is_kind name e ≡ true)
  Fits _ x = ⊥

  -- The arguments fit the parameters; an optional one may be left out.
  abbrev pub FitsAll : List SigType → List (Arg S) → Type 0
  FitsAll [] [] = Unit
  FitsAll [] (x ∷ xs) = ⊥
  FitsAll (SigType.optional t ∷ ts) [] = FitsAll ts []
  FitsAll (SigType.optional t ∷ ts) (x ∷ xs) = Fits t x × FitsAll ts xs
  FitsAll (t ∷ ts) [] = ⊥
  FitsAll (t ∷ ts) (x ∷ xs) = Fits t x × FitsAll ts xs

  abbrev pub AllItems : (Out S → Type 0) → OutItems S.F64 S.F32 (ExternValue S) → Type 0
  AllItems P OutItems.nil = Unit
  AllItems P (OutItems.cons x xs) = P x × AllItems P xs

  -- The answer is of the type.
  abbrev pub Gives : SigType → Out S → Type 0
  Gives SigType.bool o = (b : Bool) × (o ≡ NativeOut.scalar (Scalar.bool b))
  Gives SigType.int o = (n : ℤ) × (o ≡ NativeOut.scalar (Scalar.int n))
  Gives SigType.string o = (s : String) × (o ≡ NativeOut.str s)
  Gives SigType.bytes o = (b : List ℕ) × (o ≡ NativeOut.bytes b)
  Gives SigType.any o = Unit
  Gives (SigType.named name) o =
      (e : ExternValue S) × (o ≡ NativeOut.extern e) × (is_kind name e ≡ true)
  Gives (SigType.list t) o =
      (xs : OutItems S.F64 S.F32 (ExternValue S)) × (o ≡ NativeOut.list xs) × AllItems (Gives t) xs
  Gives (SigType.option t) o =
      (o ≡ NativeOut.absent) ⊎ ((x : Out S) × (o ≡ NativeOut.present x) × Gives t x)
  Gives (SigType.optional t) o = ⊥

  -- The two refusals that the types leave open: a negative amount, and a value that is no data.
  abbrev pub IsRefusal : String → List (Arg S) → String → Type 0
  IsRefusal method args e =
      ((n : ℕ) × Memᴰ (NativeValue.scalar (Scalar.int (negsuc n))) args
        × (e ≡ negative_amount S method (negsuc n)))
      ⊎ ((x : Arg S) × Memᴰ x args × (from_native (type_identity S) method x ≡ err e))

  abbrev pub Answers : SigType → String → List (Arg S) → Result (Out S) → Type 0
  Answers ret method args (ok out) = Gives ret out
  Answers ret method args (err e) = IsRefusal method args e

  -- The function, called with arguments that fit, answers as its entry in a table says.
  abbrev pub IsTypedAt : (String → List (Arg S) → Result (Out S)) → ExtFn → Type 0
  IsTypedAt call f =
      (args : List (Arg S)) → FitsAll f.params args → Answers f.ret f.name args (call f.name args)

  abbrev pub IsTyped : (String → List (Arg S) → Result (Out S)) → List ExtFn → Type 0
  IsTyped call table = All (IsTypedAt call) table

  -- A call that reads a value from its arguments first.
  Answers-result :
      {A : Type 0} (ret : SigType) (method : String) (args : List (Arg S)) (r : Result A)
      (f : A → Result (Out S))
      → ((e : String) → r ≡ err e → IsRefusal method args e)
      → ((a : A) → Answers ret method args (f a))
      → Answers ret method args (r >>= f)
  Answers-result ret method args (ok a) f bad good = good a
  Answers-result ret method args (err e) f bad good = bad e refl

  pub Answers-value :
      (ret : SigType) (method : String) (args : List (Arg S)) (x : Arg S)
      → Memᴰ x args
      → (f : Value S → Result (Out S)) → ((v : Value S) → Answers ret method args (f v))
      → Answers ret method args (from_native (type_identity S) method x >>= f)
  Answers-value ret method args x mem f good =
      Answers-result ret method args (from_native (type_identity S) method x) f
        (λ e h. inr (x, mem, h)) good

  -- What a box of a known kind holds.
  pub as_kind_gcounter :
      (e : ExternValue S)
      → is_kind "GCounter" e ≡ true
      → (c : GCounter) × (e ≡ ExternValue.gcounter c)
  unfolding is_kind string_discrete
  as_kind_gcounter (ExternValue.gcounter c) h = (c, refl)
  as_kind_gcounter e h = cc

  pub as_kind_pncounter :
      (e : ExternValue S)
      → is_kind "PnCounter" e ≡ true
      → (c : PnCounter) × (e ≡ ExternValue.pncounter c)
  unfolding is_kind string_discrete
  as_kind_pncounter (ExternValue.pncounter c) h = (c, refl)
  as_kind_pncounter e h = cc

  pub as_kind_gset :
      (e : ExternValue S) → is_kind "GSet" e ≡ true → (s : GSet) × (e ≡ ExternValue.gset s)
  unfolding is_kind string_discrete
  as_kind_gset (ExternValue.gset s) h = (s, refl)
  as_kind_gset e h = cc

  pub as_kind_lww :
      (e : ExternValue S)
      → is_kind "LwwRegister" e ≡ true
      → (r : LwwRegister (Value S)) × (e ≡ ExternValue.lww r)
  unfolding is_kind string_discrete
  as_kind_lww (ExternValue.lww r) h = (r, refl)
  as_kind_lww e h = cc

  pub as_kind_orset :
      (e : ExternValue S)
      → is_kind "OrSet" e ≡ true
      → (s : OrSet (Value S)) × (e ≡ ExternValue.orset s)
  unfolding is_kind string_discrete
  as_kind_orset (ExternValue.orset s) h = (s, refl)
  as_kind_orset e h = cc

  pub as_kind_autodoc :
      (e : ExternValue S)
      → is_kind "AutoDoc" e ≡ true
      → (d : AutoDoc S.automerge) × (e ≡ ExternValue.autodoc d)
  unfolding is_kind string_discrete
  as_kind_autodoc (ExternValue.autodoc d) h = (d, refl)
  as_kind_autodoc e h = cc
