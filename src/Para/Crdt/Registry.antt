-- ===== src/Para/Crdt/Registry.antt =====
-- The CRDT types that crates/noeta-para-p2p/src/lib.rs registers (`PARA_P2P_TYPES`): for each its
-- method table and its dispatch, and what ties the two together.
use mathlib.Core.List.{Memᴰ}
use para_p2p.Common.{String, true, false, List, [], ◌∷◌, ◌≡◌, refl, All, Memᴰ-All, arith}
use para_p2p.Common.Io.{Result, err}
use para_p2p.Common.Order.{is_text, string_discrete}
use para_p2p.Para.Crdt.{Setting, ExternValue, Arg, Out}
use para_p2p.Para.Crdt.Conforms.{
  is_kind, FitsAll, Answers, IsTypedAt, IsTyped, as_kind_gcounter, as_kind_pncounter, as_kind_gset,
  as_kind_lww, as_kind_orset, as_kind_autodoc,
}
use para_p2p.Para.Crdt.Document.{autodoc_dispatch}
use para_p2p.Para.Crdt.Methods.{
  crdt_dispatch, gcounter_method_dispatch, pncounter_method_dispatch, gset_method_dispatch,
  lww_method_dispatch, orset_method_dispatch,
}
use para_p2p.Para.Crdt.Shapes.{no_argument}
use para_p2p.Para.Crdt.Signatures.{
  ExtFn, crdt_fns, gcounter_methods, pncounter_methods, gset_methods, lww_methods, orset_methods,
  autodoc_methods,
}
use para_p2p.Para.Crdt.Typed.{
  gcounter-IsTyped, pncounter-IsTyped, gset-IsTyped, lww-IsTyped, orset-IsTyped, autodoc-IsTyped,
}

module _ (S : Setting) where
  pub record ExtType : Type 0 where
    pub name : String
    pub methods : List ExtFn
    pub dispatch : ExternValue S → String → List (Arg S) → Result (Out S)

  abbrev registered :
      String → List ExtFn → (ExternValue S → String → List (Arg S) → Result (Out S)) → ExtType
  registered name methods dispatch = record { name = name; methods = methods; dispatch = dispatch }

  abbrev pub para_p2p_types : List ExtType
  para_p2p_types =
      registered "GCounter" gcounter_methods (gcounter_method_dispatch S)
      ∷ registered "PnCounter" pncounter_methods (pncounter_method_dispatch S)
      ∷ registered "AutoDoc" autodoc_methods (autodoc_dispatch S)
      ∷ registered "GSet" gset_methods (gset_method_dispatch S)
      ∷ registered "LwwRegister" lww_methods (lww_method_dispatch S)
      ∷ registered "OrSet" orset_methods (orset_method_dispatch S)
      ∷ []

  -- A type of the registry, and a box that holds one of its values.
  abbrev pub IsOf : ExtType → ExternValue S → Type 0
  IsOf t e = Memᴰ t para_p2p_types × (is_kind S t.name e ≡ true)

  abbrev AllTyped : ExtType → Type 0
  AllTyped t = (e : ExternValue S) → is_kind S t.name e ≡ true → IsTyped S (t.dispatch e) t.methods

  table-IsTyped : All AllTyped para_p2p_types
  table-IsTyped = (
    (λ e h. let (c, k) = as_kind_gcounter S e h in rw k (gcounter-IsTyped S c)),
    (
      (λ e h. let (c, k) = as_kind_pncounter S e h in rw k (pncounter-IsTyped S c)),
      (
        (λ e h. let (c, k) = as_kind_autodoc S e h in rw k (autodoc-IsTyped S c)),
        (
          (λ e h. let (c, k) = as_kind_gset S e h in rw k (gset-IsTyped S c)),
          (
            (λ e h. let (c, k) = as_kind_lww S e h in rw k (lww-IsTyped S c)),
            ((λ e h. let (c, k) = as_kind_orset S e h in rw k (orset-IsTyped S c)), tt),
          ),
        ),
      ),
    ),
  )

  -- Each method that the table of a registered CRDT type names, called on a value of that type with
  -- arguments that fit its parameters (an optional one may be left out), answers with a value of
  -- the type that the table gives, or with one of two errors: that an amount is negative, or that a
  -- value is none that a CRDT can hold.
  pub methods_answer :
      (t : ExtType) (e : ExternValue S) (f : ExtFn) (args : List (Arg S))
      → IsOf t e
      → Memᴰ f t.methods
      → FitsAll S f.params args
      → Answers S f.ret f.name args (t.dispatch e f.name args)
  methods_answer t e f args (i, h) j fits =
      Memᴰ-All (IsTypedAt S (t.dispatch e)) f t.methods
        (Memᴰ-All AllTyped t para_p2p_types table-IsTyped i e h) j args fits

  -- No function of the table has this name.
  abbrev pub IsMissing : String → List ExtFn → Type 0
  IsMissing name table = All (λ f. is_text name f.name ≡ false) table

  abbrev HasNoOther : ExtType → Type 0
  HasNoOther t =
      (e : ExternValue S)
      → is_kind S t.name e ≡ true
      → (method : String) (args : List (Arg S)) → IsMissing method t.methods
      → t.dispatch e method args ≡ err (S.no_method_error t.name method)

  table_missing : All HasNoOther para_p2p_types
  unfolding gcounter_method_dispatch pncounter_method_dispatch gset_method_dispatch
      lww_method_dispatch orset_method_dispatch autodoc_dispatch
  table_missing = (
    (λ e h method args (a, (b, (c, i))). let (v, k) = as_kind_gcounter S e h in ground arith),
    (
      (λ e h method args (a, (b, (c, (d, i)))).
          let (v, k) = as_kind_pncounter S e h in ground arith),
      (
        (λ e h method args (a, (b, (c, (d, (f, (g, (j, i))))))).
            let (v, k) = as_kind_autodoc S e h in ground arith),
        (
          (λ e h method args (a, (b, (c, (d, (f, i))))).
              let (v, k) = as_kind_gset S e h in ground arith),
          (
            (λ e h method args (a, (b, (c, i))). let (v, k) = as_kind_lww S e h in ground arith),
            (
              (λ e h method args (a, (b, (c, (d, (f, (g, i)))))).
                  let (v, k) = as_kind_orset S e h in ground arith),
              tt,
            ),
          ),
        ),
      ),
    ),
  )

  -- A method name that the table of a registered CRDT type does not have is refused on a value of
  -- that type with the error that there is no such method, whatever the arguments.
  pub dispatch_missing :
      (t : ExtType) (e : ExternValue S) (method : String) (args : List (Arg S))
      → IsOf t e
      → IsMissing method t.methods
      → t.dispatch e method args ≡ err (S.no_method_error t.name method)
  dispatch_missing t e method args (i, h) m =
      Memᴰ-All HasNoOther t para_p2p_types table_missing i e h method args m

  -- The functions of the module `crdt` answer as their table says, and there are no others.
  pub crdt_fns-IsTyped : IsTyped S (crdt_dispatch S) crdt_fns
  unfolding crdt_dispatch string_discrete is_kind
  crdt_fns-IsTyped = (
    no_argument _ (_, refl, refl),
    (
      no_argument _ (_, refl, refl),
      (
        no_argument _ (_, refl, refl),
        (
          no_argument _ (_, refl, refl),
          (no_argument _ (_, refl, refl), (no_argument _ (_, refl, refl), tt)),
        ),
      ),
    ),
  )

  pub crdt_fns_missing :
      (func : String) (args : List (Arg S))
      → IsMissing func crdt_fns
      → crdt_dispatch S func args ≡ err (S.no_function_error "crdt" func)
  unfolding crdt_dispatch
  crdt_fns_missing func args (a, (b, (c, (d, (f, (g, i)))))) = ground arith
