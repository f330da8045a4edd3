-- ===== src/Para/Crdt.antt =====
-- The values of crates/noeta-para-p2p/src/crdt.rs: the CRDTs behind extern boxes, and what their
-- methods check of their arguments.
pub mod Methods
pub mod Document
pub mod Signatures
pub mod Registry
pub mod Conforms
pub mod Shapes
pub mod Typed
pub mod Dyn
pub mod Equality
pub mod Display
mod Tests
use Prim.Native.String.{◌++◌}
use para_p2p.Common.{
  ℕ, zero, suc, ◌-◌, ◌^◌, String, ◌&&◌, List, [], ◌∷◌, Option, none, some, leb, ◌==◌, if◌then◌else◌,
  length, min,
}
use para_p2p.Common.Text.{write_int}
use para_p2p.Common.Int.{ℤ, pos, negsuc}
use para_p2p.Common.Io.{Result, ok, err}
use para_p2p.Common.Order.{Ord}
use para_p2p.Crdt.GCounter.{GCounter}
use para_p2p.Crdt.GSet.{GSet}
use para_p2p.Crdt.Lww.{LwwRegister}
use para_p2p.Crdt.OrSet.{OrSet}
use para_p2p.Crdt.PnCounter.{PnCounter}
use para_p2p.Crdt.Value.{CrdtValue}
use para_p2p.Crdt.Value.Order.{value_ord}
use para_p2p.Para.AutoDoc.{Automerge, AutoDoc}
use para_p2p.Para.Native.{Scalar, NativeValue, NativeOut}

-- What the extension is built on: the two float types with the order of `total_cmp`, Automerge, the
-- extern types of other modules with their names, and the messages that native functions share.
pub record Setting : Type 1 where
  pub F64 : Type 0
  pub F32 : Type 0
  pub f64_ord : Ord F64
  pub f32_ord : Ord F32
  pub automerge : Automerge
  pub Other : Type 0
  pub other_identity : Other → String
  pub arity_error : String → ℕ → ℕ → String
  pub type_error : String → String → String
  pub no_function_error : String → String → String
  pub no_method_error : String → String → String

module _ (S : Setting) where
  open S use {F64, F32}

  abbrev pub Value : Type 0
  Value = CrdtValue F64 F32

  instance abbrev pub stored_ord : Ord Value
  stored_ord = value_ord ⦃d = S.f64_ord⦄ ⦃s = S.f32_ord⦄

  -- A box with a type of this module, or of another.
  pub data ExternValue : Type 0 where
    gcounter : GCounter → ExternValue
    pncounter : PnCounter → ExternValue
    gset : GSet → ExternValue
    lww : LwwRegister Value → ExternValue
    orset : OrSet Value → ExternValue
    autodoc : AutoDoc S.automerge → ExternValue
    other : S.Other → ExternValue

  abbrev pub Arg : Type 0
  Arg = NativeValue F64 F32 ExternValue

  abbrev pub Out : Type 0
  Out = NativeOut F64 F32 ExternValue

  unfoldable pub type_identity : ExternValue → String
  type_identity (gcounter c) = "para.crdt.GCounter"
  type_identity (pncounter c) = "para.crdt.PnCounter"
  type_identity (gset c) = "para.crdt.GSet"
  type_identity (lww r) = "para.crdt.LwwRegister"
  type_identity (orset r) = "para.crdt.OrSet"
  type_identity (autodoc d) = "para.crdt.AutoDoc"
  type_identity (other o) = S.other_identity o

  -- `args.get(index)`
  abbrev pub get_elem? : List Arg → ℕ → Option Arg
  get_elem? [] i = none
  get_elem? (x ∷ xs) zero = some x
  get_elem? (x ∷ xs) (suc i) = get_elem? xs i

  unfoldable pub want_arity : String → List Arg → ℕ → Result (Unit {0})
  want_arity func args expected =
      if length args == expected then ok tt else err (S.arity_error func expected (length args))

  unfoldable pub want_arity_range : String → List Arg → ℕ → ℕ → Result (Unit {0})
  want_arity_range func args low high =
      if leb low (length args) && leb (length args) high
      then ok tt
      else err (S.arity_error func low (length args))

  unfoldable pub want_str : String → List Arg → ℕ → Result String
  want_str func args index = elim (get_elem? args index) [
    | some (NativeValue.str s) ↦ ok s
    | _ ↦ err (S.type_error func "string")
  ]

  unfoldable pub negative_amount : String → ℤ → String
  unfolding write_int
  negative_amount func n = "`" ++ func ++ "` amount must be non-negative, got " ++ write_int n

  -- `u64::try_from`, with the refusal of `want_amount`
  unfoldable pub to_amount : String → ℤ → Result ℕ
  unfolding negative_amount
  to_amount func (pos n) = ok n
  to_amount func (negsuc n) = err (negative_amount func (negsuc n))

  unfoldable pub want_amount : String → List Arg → ℕ → Result ℕ
  unfolding to_amount
  want_amount func args index = elim (get_elem? args index) [
    | none ↦ to_amount func (pos 1)
    | some (NativeValue.scalar (Scalar.int n)) ↦ to_amount func n
    | some _ ↦ err (S.type_error func "int")
  ]

  -- `downcast`, by what `downcast_ref` finds in the receiver
  unfoldable pub downcast : {A : Type 0} → Option A → String → Result A
  downcast (some a) type_name = ok a
  downcast none type_name = err (S.type_error "method" type_name)

  unfoldable pub want_extern :
      {A : Type 0} → (ExternValue → Option A) → String → List Arg → ℕ → String → Result A
  want_extern downcast_ref func args index type_name = elim (get_elem? args index) [
    | some (NativeValue.extern b) ↦ elim (downcast_ref b) [
      | some a ↦ ok a
      | none ↦ err (S.type_error func type_name)
    ]
    | _ ↦ err (S.type_error func type_name)
  ]

  unfoldable pub clamp_u64 : ℕ → ℤ
  clamp_u64 value = pos (min value (2 ^ 63 - 1))

  -- `downcast_ref` at each type
  abbrev pub as_gcounter : ExternValue → Option GCounter
  as_gcounter (gcounter c) = some c
  as_gcounter _ = none

  abbrev pub as_pncounter : ExternValue → Option PnCounter
  as_pncounter (pncounter c) = some c
  as_pncounter _ = none

  abbrev pub as_gset : ExternValue → Option GSet
  as_gset (gset c) = some c
  as_gset _ = none

  abbrev pub as_lww : ExternValue → Option (LwwRegister Value)
  as_lww (lww r) = some r
  as_lww _ = none

  abbrev pub as_orset : ExternValue → Option (OrSet Value)
  as_orset (orset r) = some r
  as_orset _ = none

  abbrev pub as_autodoc : ExternValue → Option (AutoDoc S.automerge)
  as_autodoc (autodoc d) = some d
  as_autodoc _ = none
