-- ===== src/Para/Crdt/Typed.antt =====
-- A call that the checker lets through does what its signature says.
use mathlib.Core.List.Memᴰ.{head, tail}
use para_p2p.Common.{String, List, [], ◌∷◌, Option, none, some, refl, inl, inr}
use para_p2p.Common.Order.{Ord, string_discrete}
use para_p2p.Crdt.GCounter.{GCounter}
use para_p2p.Crdt.GSet as GSets
use para_p2p.Crdt.GSet.{GSet}
use para_p2p.Crdt.Lww
use para_p2p.Crdt.Lww.{LwwRegister}
use para_p2p.Crdt.OrSet
use para_p2p.Crdt.OrSet.{OrSet}
use para_p2p.Crdt.PnCounter.{PnCounter}
use para_p2p.Para.AutoDoc
use para_p2p.Para.AutoDoc.{AutoDoc}
use para_p2p.Para.Crdt.{Setting, Value, stored_ord, ExternValue}
use para_p2p.Para.Crdt.Conforms.{
  is_kind, Gives, AllItems, IsTyped, Answers-value, as_kind_gcounter, as_kind_pncounter,
  as_kind_gset, as_kind_lww, as_kind_orset, as_kind_autodoc,
}
use para_p2p.Para.Crdt.Document.{out_string, autodoc_dispatch}
use para_p2p.Para.Crdt.Methods.{
  out_values, out_strings, out_option, gcounter_method_dispatch, pncounter_method_dispatch,
  gset_method_dispatch, lww_method_dispatch, orset_method_dispatch,
}
use para_p2p.Para.Crdt.Shapes.{
  no_argument, a_string, a_bytes, a_value, two_strings, string_and_value, string_and_amount, a_box,
}
use para_p2p.Para.Crdt.Signatures.{
  SigType, gcounter_methods, pncounter_methods, gset_methods, lww_methods, orset_methods,
  autodoc_methods,
}
use para_p2p.Para.Native.{NativeValue}

module _ (S : Setting) where
  instance abbrev stored : Ord (Value S)
  stored = stored_ord S

  all_values : (vs : List (Value S)) → AllItems S (λ o. Unit) (out_values S vs)
  all_values [] = tt
  all_values (v ∷ vs) = (tt, all_values vs)

  all_strings : (ss : List String) → AllItems S (Gives S SigType.string) (out_strings S ss)
  all_strings [] = tt
  all_strings (s ∷ ss) = ((s, refl), all_strings ss)

  pub gcounter-IsTyped :
      (c : GCounter)
      → IsTyped S (gcounter_method_dispatch S (ExternValue.gcounter c)) gcounter_methods
  unfolding gcounter_method_dispatch string_discrete is_kind
  gcounter-IsTyped c = (
    string_and_amount _ (λ s. (_, refl, refl)) (λ s n. (_, refl, refl))
        (λ s n. inl (n, tail (head refl), refl)),
    (
      no_argument _ (_, refl),
      (a_box _ "GCounter" ExternValue.gcounter (as_kind_gcounter S) (λ d. (_, refl, refl)), tt),
    ),
  )

  pub orset-IsTyped :
      (c : OrSet (Value S))
      → IsTyped S (orset_method_dispatch S (ExternValue.orset c)) orset_methods
  unfolding orset_method_dispatch string_discrete is_kind
  orset-IsTyped c = (
    string_and_value _ (λ s x.
        Answers-value S (SigType.named "OrSet") "insert" (NativeValue.str s ∷ x ∷ []) x
          (tail (head refl)) _ (λ v. (_, refl, refl))),
    (
      a_value _ (λ x.
          Answers-value S (SigType.named "OrSet") "remove" (x ∷ []) x (head refl) _
            (λ v. (_, refl, refl))),
      (
        a_value _ (λ x.
            Answers-value S SigType.bool "contains" (x ∷ []) x (head refl) _ (λ v. (_, refl))),
        (
          no_argument _ (_, refl),
          (
            no_argument _ (_, refl, all_values (OrSet.members c)),
            (a_box _ "OrSet" ExternValue.orset (as_kind_orset S) (λ d. (_, refl, refl)), tt),
          ),
        ),
      ),
    ),
  )

  pub pncounter-IsTyped :
      (c : PnCounter)
      → IsTyped S (pncounter_method_dispatch S (ExternValue.pncounter c)) pncounter_methods
  unfolding pncounter_method_dispatch string_discrete is_kind
  pncounter-IsTyped c = (
    string_and_amount _ (λ s. (_, refl, refl)) (λ s n. (_, refl, refl))
        (λ s n. inl (n, tail (head refl), refl)),
    (
      string_and_amount _ (λ s. (_, refl, refl)) (λ s n. (_, refl, refl))
          (λ s n. inl (n, tail (head refl), refl)),
      (
        no_argument _ (_, refl),
        (
          a_box _ "PnCounter" ExternValue.pncounter (as_kind_pncounter S) (λ d. (_, refl, refl)),
          tt,
        ),
      ),
    ),
  )

  pub gset-IsTyped :
      (c : GSet) → IsTyped S (gset_method_dispatch S (ExternValue.gset c)) gset_methods
  unfolding gset_method_dispatch string_discrete is_kind
  gset-IsTyped c = (
    a_string _ (λ s. (_, refl, refl)),
    (
      a_string _ (λ s. (_, refl)),
      (
        no_argument _ (_, refl),
        (
          no_argument _ (_, refl, all_strings (GSets.members c)),
          (a_box _ "GSet" ExternValue.gset (as_kind_gset S) (λ d. (_, refl, refl)), tt),
        ),
      ),
    ),
  )

  present-Gives : (o : Option (Value S)) → Gives S (SigType.option SigType.any) (out_option S o)
  present-Gives none = inl refl
  present-Gives (some v) = inr (_, refl, tt)

  present_string-Gives :
      (o : Option String) → Gives S (SigType.option SigType.string) (out_string S o)
  present_string-Gives none = inl refl
  present_string-Gives (some s) = inr (_, refl, (s, refl))

  pub lww-IsTyped :
      (c : LwwRegister (Value S))
      → IsTyped S (lww_method_dispatch S (ExternValue.lww c)) lww_methods
  unfolding lww_method_dispatch string_discrete is_kind
  lww-IsTyped c = (
    string_and_value _ (λ s x.
        Answers-value S (SigType.named "LwwRegister") "set" (NativeValue.str s ∷ x ∷ []) x
          (tail (head refl)) _ (λ v. (_, refl, refl))),
    (
      no_argument _ (present-Gives (Lww.get c)),
      (a_box _ "LwwRegister" ExternValue.lww (as_kind_lww S) (λ d. (_, refl, refl)), tt),
    ),
  )

  pub autodoc-IsTyped :
      (d : AutoDoc S.automerge)
      → IsTyped S (autodoc_dispatch S (ExternValue.autodoc d)) autodoc_methods
  unfolding autodoc_dispatch string_discrete is_kind
  autodoc-IsTyped d = (
    two_strings _ (λ s t. (_, refl, refl)),
    (
      a_string _ (λ s. present_string-Gives (AutoDoc.get S.automerge d s)),
      (
        a_string _ (λ s. (_, refl, refl)),
        (
          no_argument _ (_, refl, all_strings (AutoDoc.keys S.automerge d)),
          (
            a_box _ "AutoDoc" ExternValue.autodoc (as_kind_autodoc S) (λ o. (_, refl, refl)),
            (no_argument _ (_, refl), (a_bytes _ (λ b. (_, refl, refl)), tt)),
          ),
        ),
      ),
    ),
  )
