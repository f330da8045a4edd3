-- ===== src/Para/Crdt/Equality.antt =====
-- `eq_value` of the boxes of crates/noeta-para-p2p/src/crdt.rs and autodoc.rs, by which the host
-- tells whether a merge has changed a value.
use para_p2p.Common.{Bool, true, false, ◌≡◌, ◌↔◌, ap, subst}
use para_p2p.Common.Order.{Ord}
use para_p2p.Crdt.Equality.{
  IsExact, eq_gcounter, eq_pncounter, eq_gset, eq_lww, eq_orset, eq_gcounter-IsExact,
  eq_pncounter-IsExact, eq_gset-IsExact, eq_lww-IsExact, eq_orset-IsExact,
}
use para_p2p.Para.Crdt.{Setting, Value, stored_ord, ExternValue}
use para_p2p.Para.Crdt.Dyn.Kinds.{Kind, Carrier, put_in_box, put_in_box_injective}

-- `other_eq` is the equality of the boxes of other modules.
module _ (S : Setting) (other_eq : S.Other → ExternValue S → Bool) where
  instance abbrev stored : Ord (Value S)
  stored = stored_ord S

  unfoldable pub eq_value : ExternValue S → ExternValue S → Bool
  unfolding eq_gcounter eq_pncounter eq_gset eq_lww eq_orset
  eq_value (ExternValue.gcounter a) (ExternValue.gcounter b) = eq_gcounter a b
  eq_value (ExternValue.pncounter a) (ExternValue.pncounter b) = eq_pncounter a b
  eq_value (ExternValue.gset a) (ExternValue.gset b) = eq_gset a b
  eq_value (ExternValue.lww a) (ExternValue.lww b) = eq_lww a b
  eq_value (ExternValue.orset a) (ExternValue.orset b) = eq_orset a b
  eq_value (ExternValue.autodoc a) (ExternValue.autodoc b) = S.automerge.same_heads b.heads a.heads
  eq_value (ExternValue.other o) e = other_eq o e
  eq_value _ _ = false

  same_in_box :
      {A : Type 0} (test : A → A → Bool) (box : A → ExternValue S) (a b : A)
      → IsExact test
      → (box a ≡ box b → a ≡ b)
      → (test a b ≡ true) ↔ (box a ≡ box b)
  same_in_box test box a b x injective =
      (λ h. ap box (x.to_eq a b h), λ h. subst (λ c. test a c ≡ true) (injective h) (x.test_refl a))

  -- The equality of two boxes, the first of which holds one of the five lattices, is true exactly
  -- if they hold the same state of the same type, whatever the second one holds.
  pub eq_value_iff :
      (k : Kind) (a : Carrier S k) (e : ExternValue S)
      → (eq_value (put_in_box S k a) e ≡ true) ↔ (put_in_box S k a ≡ e)
  unfolding eq_value
  eq_value_iff Kind.gcounter a (ExternValue.gcounter b) =
      same_in_box eq_gcounter ExternValue.gcounter a b eq_gcounter-IsExact
        (put_in_box_injective S Kind.gcounter a b)
  eq_value_iff Kind.pncounter a (ExternValue.pncounter b) =
      same_in_box eq_pncounter ExternValue.pncounter a b eq_pncounter-IsExact
        (put_in_box_injective S Kind.pncounter a b)
  eq_value_iff Kind.gset a (ExternValue.gset b) =
      same_in_box eq_gset ExternValue.gset a b eq_gset-IsExact
        (put_in_box_injective S Kind.gset a b)
  eq_value_iff Kind.lww a (ExternValue.lww b) =
      same_in_box eq_lww ExternValue.lww a b eq_lww-IsExact (put_in_box_injective S Kind.lww a b)
  eq_value_iff Kind.orset a (ExternValue.orset b) =
      same_in_box eq_orset ExternValue.orset a b eq_orset-IsExact
        (put_in_box_injective S Kind.orset a b)
  eq_value_iff Kind.gcounter a e = (λ h. cc, λ h. cc)
  eq_value_iff Kind.pncounter a e = (λ h. cc, λ h. cc)
  eq_value_iff Kind.gset a e = (λ h. cc, λ h. cc)
  eq_value_iff Kind.lww a e = (λ h. cc, λ h. cc)
  eq_value_iff Kind.orset a e = (λ h. cc, λ h. cc)
