-- ===== src/Crdt/OrSet/Laws.antt =====
-- `OrSet.merge` unions both halves of the state, and is a join.
use para_p2p.Common.{◌≡◌, refl, ap, sym, ◌∙◌, Option, none, some, []}
use para_p2p.Common.Order.{Ord}
use para_p2p.Common.BTree.{BTreeSet, get, extend}
use para_p2p.Common.BTree.Lookup.{get-merge_with, merge_with-IsSorted, joined}
use para_p2p.Common.BTree.Extensional.{ext}
use para_p2p.Common.BTree.Sets.{extend-IsSorted, extend_comm, extend_assoc, extend_idem, extend-nil}
use para_p2p.Crdt.Clock.{Dot, dot_ord}
use para_p2p.Crdt.Mergeable.{Mergeable}
use para_p2p.Crdt.OrSet.{OrSet, merge}
use para_p2p.Crdt.OrSet.Tags.{AreSorted, IsValid, grow}

joined-AreSorted :
    (x y : Option (BTreeSet Dot)) → AreSorted x → AreSorted y → AreSorted (joined grow x y)
joined-AreSorted x none hx hy = hx
joined-AreSorted none (some t) hx hy = extend-IsSorted [] t tt
joined-AreSorted (some s) (some t) hx hy = extend-IsSorted s t hx

joined_comm :
    (x y : Option (BTreeSet Dot)) → AreSorted x → AreSorted y → joined grow x y ≡ joined grow y x
joined_comm none none hx hy = refl
joined_comm none (some t) hx hy = ap some (extend-nil t hy)
joined_comm (some s) none hx hy = ap some (sym (extend-nil s hx))
joined_comm (some s) (some t) hx hy = ap some (extend_comm s t hx hy)

joined_assoc :
    (x y z : Option (BTreeSet Dot))
    → AreSorted x
    → AreSorted y
    → AreSorted z
    → joined grow (joined grow x y) z ≡ joined grow x (joined grow y z)
joined_assoc x y none hx hy hz = refl
joined_assoc none none (some u) hx hy hz = ap some (sym (ap (extend []) (extend-nil u hz)))
joined_assoc none (some t) (some u) hx hy hz = ap some (
    ap (λ a. extend a u) (extend-nil t hy) ∙ sym (extend-nil (extend t u) (extend-IsSorted t u hy)))
joined_assoc (some s) none (some u) hx hy hz = ap some (sym (ap (extend s) (extend-nil u hz)))
joined_assoc (some s) (some t) (some u) hx hy hz = ap some (extend_assoc s t u hx hy hz)

joined_idem : (x : Option (BTreeSet Dot)) → AreSorted x → joined grow x x ≡ x
joined_idem none h = refl
joined_idem (some s) h = ap some (extend_idem s h)

module _ {ℓ} {V : Type ℓ} ⦃o : Ord V⦄ where
  get-merge :
      (a b : OrSet V) (e : V)
      → IsValid b
      → get e (merge a b).adds ≡ joined grow (get e a.adds) (get e b.adds)
  unfolding merge
  get-merge a b e vb = get-merge_with grow e a.adds b.adds vb.sorted

  merged-AreSorted :
      (a b : OrSet V) (e : V) → IsValid a → IsValid b → AreSorted (get e (merge a b).adds)
  merged-AreSorted a b e va vb =
      rw (get-merge a b e vb) (joined-AreSorted _ _ (va.tags_sorted e) (vb.tags_sorted e))

  pub merge-IsValid : (a b : OrSet V) → IsValid a → IsValid b → IsValid (merge a b)
  unfolding merge
  merge-IsValid a b va vb = record {
    sorted = merge_with-IsSorted grow a.adds b.adds va.sorted;
    tags_sorted = λ e. merged-AreSorted a b e va vb;
    removed_sorted = extend-IsSorted a.removed b.removed va.removed_sorted;
  }

  adds_ext :
      (a b : OrSet V)
      → IsValid a
      → IsValid b
      → ((e : V) → get e a.adds ≡ get e b.adds)
      → a.removed ≡ b.removed
      → a ≡ b
  adds_ext a b va vb h r =
      λ i. record { adds = ext a.adds b.adds va.sorted vb.sorted h i; removed = r i }

  pub merge_comm : (a b : OrSet V) → IsValid a → IsValid b → merge a b ≡ merge b a
  unfolding merge
  merge_comm a b va vb =
      adds_ext (merge a b) (merge b a) (merge-IsValid a b va vb) (merge-IsValid b a vb va)
        (λ e.
          get-merge a b e vb
          ∙ joined_comm _ _ (va.tags_sorted e) (vb.tags_sorted e)
          ∙ sym (get-merge b a e va))
        (extend_comm a.removed b.removed va.removed_sorted vb.removed_sorted)

  pub merge_assoc :
      (a b c : OrSet V)
      → IsValid a
      → IsValid b
      → IsValid c
      → merge (merge a b) c ≡ merge a (merge b c)
  unfolding merge
  merge_assoc a b c va vb vc =
      adds_ext (merge (merge a b) c) (merge a (merge b c))
        (merge-IsValid (merge a b) c (merge-IsValid a b va vb) vc)
        (merge-IsValid a (merge b c) va (merge-IsValid b c vb vc))
        (λ e.
          get-merge (merge a b) c e vc
          ∙ ap (λ x. joined grow x (get e c.adds)) (get-merge a b e vb)
          ∙ joined_assoc _ _ _ (va.tags_sorted e) (vb.tags_sorted e) (vc.tags_sorted e)
          ∙ sym (ap (joined grow (get e a.adds)) (get-merge b c e vc))
          ∙ sym (get-merge a (merge b c) e (merge-IsValid b c vb vc)))
        (extend_assoc a.removed b.removed c.removed va.removed_sorted vb.removed_sorted
          vc.removed_sorted)

  pub merge_idem : (a : OrSet V) → IsValid a → merge a a ≡ a
  unfolding merge
  merge_idem a va =
      adds_ext (merge a a) a (merge-IsValid a a va va) va
        (λ e. get-merge a a e va ∙ joined_idem _ (va.tags_sorted e))
        (extend_idem a.removed va.removed_sorted)

  instance abbrev pub orset_mergeable : Mergeable (OrSet V)
  orset_mergeable = record {
    merge = merge;
    IsValid = IsValid;
    merge-IsValid = merge-IsValid;
    merge_comm = merge_comm;
    merge_assoc = merge_assoc;
    merge_idem = merge_idem;
  }

  -- On the states that the operations build, the order of two merges does not matter, nor their
  -- grouping, and a merge with itself changes nothing.
  pub OrSet-join :
      (a b c : OrSet V)
      → IsValid a
      → IsValid b
      → IsValid c
      → (merge a b ≡ merge b a) × (merge (merge a b) c ≡ merge a (merge b c)) × (merge a a ≡ a)
  OrSet-join a b c va vb vc = (merge_comm a b va vb, merge_assoc a b c va vb vc, merge_idem a va)
