-- ===== src/Crdt/OrSet/Members.antt =====
-- `members` lists what `contains` finds.
use mathlib.Core.List.{Memᴰ}
use mathlib.Core.List.Memᴰ.{head, tail}
use para_p2p.Common.{
  ◌≡◌, ◌↔◌, ◌⊎◌, Bool, true, false, List, [], ◌∷◌, none, some, arith, Bool-cases, inl, inr, All,
  Memᴰ-All, eq,
}
use para_p2p.Common.Order.{Ord, ◌≺◌, cmp_refl, gt_of_lt, Ordering-cases}
use para_p2p.Common.BTree.{BTreeMap, BTreeSet, IsSorted, Above, get}
use para_p2p.Common.BTree.Keys.{Rising}
use para_p2p.Crdt.Clock.{Dot, dot_ord}
use para_p2p.Crdt.OrSet.{OrSet, any_live, members_from, members, contains}
use para_p2p.Crdt.OrSet.Tags.{IsValid}

Memᴰ-cases {ℓ} : {A : Type ℓ} (x y : A) (ys : List A) → Memᴰ x (y ∷ ys) → (x ≡ y) ⊎ Memᴰ x ys
Memᴰ-cases x y ys (head e) = inl e
Memᴰ-cases x y ys (tail m) = inr m

module _ {ℓ} {V : Type ℓ} ⦃o : Ord V⦄ where
  -- The membership test on the entries.
  abbrev found : BTreeSet Dot → V → BTreeMap V (BTreeSet Dot) → Bool
  found removed q adds = elim (get q adds) [ none ↦ false | some tags ↦ any_live removed tags ]

  Above-members :
      (k : V) (removed : BTreeSet Dot) (adds : BTreeMap V (BTreeSet Dot))
      → Above k adds
      → All (λ q. k ≺ q) (members_from removed adds)
  unfolding members_from
  Above-members k removed [] h = tt
  Above-members k removed ((e, tags) ∷ adds) h = elim (Bool-cases (any_live removed tags)) [
    | inl live ↦ rw live (h.0, Above-members k removed adds h.1)
    | inr dead ↦ rw dead (Above-members k removed adds h.1)
  ]

  members_from-Rising :
      (removed : BTreeSet Dot) (adds : BTreeMap V (BTreeSet Dot))
      → IsSorted adds
      → Rising (members_from removed adds)
  unfolding members_from
  members_from-Rising removed [] h = tt
  members_from-Rising removed ((e, tags) ∷ adds) h = elim (Bool-cases (any_live removed tags)) [
    | inl live ↦ rw live (Above-members e removed adds h.0, members_from-Rising removed adds h.1)
    | inr dead ↦ rw dead (members_from-Rising removed adds h.1)
  ]

  found_of_Memᴰ :
      (removed : BTreeSet Dot) (q : V) (adds : BTreeMap V (BTreeSet Dot))
      → IsSorted adds
      → Memᴰ q (members_from removed adds)
      → found removed q adds ≡ true
  unfolding members_from get
  found_of_Memᴰ removed q [] h m = elim m [ ]
  found_of_Memᴰ removed q ((e, tags) ∷ adds) h m = elim (Bool-cases (any_live removed tags)) [
    | inl live ↦ elim (Memᴰ-cases q e (members_from removed adds) (rw live at m)) [
      | inl same ↦ ground (arith, cmp_refl e)
      | inr later ↦ ground (
        arith,
        found_of_Memᴰ removed q adds h.1 later,
        gt_of_lt e q (
            Memᴰ-All (λ x. e ≺ x) q (members_from removed adds) (Above-members e removed adds h.0)
              later),
      )
    ]
    | inr dead ↦
        let m' : Memᴰ q (members_from removed adds) = rw dead at m in
        ground (
          arith,
          found_of_Memᴰ removed q adds h.1 m',
          gt_of_lt e q (
              Memᴰ-All (λ x. e ≺ x) q (members_from removed adds) (Above-members e removed adds h.0)
                m'),
        )
  ]

  Memᴰ_of_found :
      (removed : BTreeSet Dot) (q : V) (adds : BTreeMap V (BTreeSet Dot))
      → found removed q adds ≡ true
      → Memᴰ q (members_from removed adds)
  unfolding members_from get
  Memᴰ_of_found removed q [] h = absurd (cc h)
  Memᴰ_of_found removed q ((e, tags) ∷ adds) h = elim (Ordering-cases (o.cmp q e)) [
    | inl less ↦ absurd (ground arith)
    | inr (inl same) ↦ rw (live_head same) (head (o.eq_of_cmp q e same))
    | inr (inr more) ↦
        let rest : Memᴰ q (members_from removed adds) =
          Memᴰ_of_found removed q adds (ground arith) in
        elim (Bool-cases (any_live removed tags)) [
          | inl live ↦ rw live (tail rest)
          | inr dead ↦ rw dead rest
        ]
  ]
    where
      live_head : o.cmp q e ≡ eq → any_live removed tags ≡ true
      live_head same = ground arith

  -- `members` lists each member once, in rising order.
  pub members-Rising : (s : OrSet V) → IsValid s → Rising (members s)
  unfolding members
  members-Rising s v = members_from-Rising s.removed s.adds v.sorted

  -- It lists the elements that `contains` finds, and no others.
  mem-members_iff : (s : OrSet V) (q : V) → IsValid s → Memᴰ q (members s) ↔ (contains s q ≡ true)
  unfolding members contains
  mem-members_iff s q v =
      (found_of_Memᴰ s.removed q s.adds v.sorted, Memᴰ_of_found s.removed q s.adds)
