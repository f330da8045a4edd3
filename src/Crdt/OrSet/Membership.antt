-- ===== src/Crdt/OrSet/Membership.antt =====
-- Which elements are members, and what removals and merges do to them.
use mathlib.Core.List.{Memᴰ}
use mathlib.Core.List.Memᴰ.{head, tail}
use para_p2p.Common.{
  ◌≡◌, ◌↔◌, refl, Bool, true, false, not, List, [], ◌∷◌, Option, none, some, arith, any, unwrap_or,
  Option-cases, Bool-cases, inl, inr,
}
use para_p2p.Common.Order.{Ord}
use para_p2p.Common.BTree.{BTreeSet, IsSorted, get, keys}
use para_p2p.Common.BTree.Keys.{get_of_Memᴰ-keys, Memᴰ-keys_of_get}
use para_p2p.Common.BTree.Sets
use para_p2p.Crdt.Clock.{Dot, dot_ord}
use para_p2p.Crdt.OrSet.{OrSet, any_live, tags_of, contains, remove, merge}
use para_p2p.Crdt.OrSet.Laws.{merge-IsValid, merge_comm}
use para_p2p.Crdt.OrSet.Tags.{
  IsValid, observed, entombed, tags_of-IsSorted, remove-IsValid, entombed-remove, observed-merge,
  entombed-merge,
}

any_of_Memᴰ {ℓ} :
    {A : Type ℓ} (p : A → Bool) (x : A) (xs : List A) → Memᴰ x xs → p x ≡ true → any p xs ≡ true
any_of_Memᴰ p x [] m h = elim m [ ]
any_of_Memᴰ p x (y ∷ ys) (head e) h = ground arith
any_of_Memᴰ p x (y ∷ ys) (tail m) h = ground (arith, any_of_Memᴰ p x ys m h)

Memᴰ_of_any {ℓ} :
    {A : Type ℓ} (p : A → Bool) (xs : List A) → any p xs ≡ true → (x : A) × Memᴰ x xs × (p x ≡ true)
Memᴰ_of_any p [] h = absurd (cc h)
Memᴰ_of_any p (y ∷ ys) h = elim (Bool-cases (p y)) [
  | inl hit ↦ (y, head refl, hit)
  | inr miss ↦ let (x, m, hit) = Memᴰ_of_any p ys (ground arith) in (x, tail m, hit)
]

any_live_of :
    (removed tags : BTreeSet Dot) (d : Dot)
    → Sets.contains d tags ≡ true
    → Sets.contains d removed ≡ false
    → any_live removed tags ≡ true
unfolding any_live
any_live_of removed tags d h k = elim (Option-cases (get d tags)) [
  | inl e ↦ absurd (ground arith)
  | inr (u, e) ↦
      any_of_Memᴰ (λ tag. not (Sets.contains tag removed)) d (keys tags)
        (Memᴰ-keys_of_get d u tags e) (ground arith)
]

of_any_live :
    (removed tags : BTreeSet Dot)
    → IsSorted tags
    → any_live removed tags ≡ true
    → (d : Dot) × (Sets.contains d tags ≡ true) × (Sets.contains d removed ≡ false)
unfolding any_live
of_any_live removed tags v h =
    let (d, m, live) = Memᴰ_of_any (λ tag. not (Sets.contains tag removed)) (keys tags) h in
    let (u, e) = get_of_Memᴰ-keys d tags v m in (d, ground arith, ground arith)

-- The membership test, by the tags that the map holds.
any_live_found :
    (removed : BTreeSet Dot) (found : Option (BTreeSet Dot))
    → (elim found as (λ x. Bool) [ none ↦ false | some tags ↦ any_live removed tags ])
      ≡ any_live removed (unwrap_or found [])
unfolding any_live keys
any_live_found removed none = refl
any_live_found removed (some tags) = refl

module _ {ℓ} {V : Type ℓ} ⦃o : Ord V⦄ where
  -- The tag `d` keeps `e` in the set.
  abbrev pub Keeps : OrSet V → V → Dot → Type 0
  Keeps s e d = (observed s e d ≡ true) × (entombed s d ≡ false)

  contains-eq-any_live : (s : OrSet V) (e : V) → contains s e ≡ any_live s.removed (tags_of s e)
  unfolding contains tags_of any_live
  contains-eq-any_live s e = any_live_found s.removed (get e s.adds)

  -- An element is a member exactly while some tag keeps it.
  pub contains_iff :
      (s : OrSet V) (e : V) → IsValid s → (contains s e ≡ true) ↔ ((d : Dot) × Keeps s e d)
  contains_iff s e v = (
    λ h.
        let (d, seen, live) =
          of_any_live s.removed (tags_of s e) (tags_of-IsSorted s e v)
            (rw (contains-eq-any_live s e) at h) in
        (d, (seen, live)),
    λ k. rw (contains-eq-any_live s e) (any_live_of s.removed (tags_of s e) k.0 k.1.0 k.1.1),
  )

  pub observed-remove :
      (s : OrSet V) (e q : V) (d : Dot) → observed (remove s e) q d ≡ observed s q d
  unfolding remove tags_of
  observed-remove s e q d = refl

  -- After a removal an element is a member exactly if a tag keeps it that the state has not seen of
  -- the element removed.
  pub contains-remove_iff :
      (s : OrSet V) (e q : V)
      → IsValid s
      → (contains (remove s e) q ≡ true) ↔ ((d : Dot) × Keeps s q d × (observed s e d ≡ false))
  contains-remove_iff s e q v =
      let rest = contains_iff (remove s e) q (remove-IsValid s e v) in
      (
        λ h.
            let (d, k) = rest.0 h in
            (
              d,
              ground (arith, observed-remove s e q d, entombed-remove s e d v),
              ground (arith, observed-remove s e q d, entombed-remove s e d v),
            ),
        λ (d, k, n). rest.1 (d, ground (arith, observed-remove s e q d, entombed-remove s e d v)),
      )

  -- An element is gone once it is removed.
  pub contains-remove_self : (s : OrSet V) (e : V) → IsValid s → contains (remove s e) e ≡ false
  contains-remove_self s e v = elim (Bool-cases (contains (remove s e) e)) [
    | inl h ↦ let (d, k, n) = (contains-remove_iff s e e v).0 h in absurd (ground arith)
    | inr h ↦ h
  ]

  -- A peer that has seen no other insertion of the element does not bring it back, in whichever
  -- direction the two states are merged.
  pub contains-merge-remove :
      (s t : OrSet V) (e : V)
      → IsValid s
      → IsValid t
      → ((d : Dot) → observed t e d ≡ true → observed s e d ≡ true)
      → (contains (merge (remove s e) t) e ≡ false) × (contains (merge t (remove s e)) e ≡ false)
  contains-merge-remove s t e vs vt sub =
      let vr : IsValid (remove s e) = remove-IsValid s e vs in
      let gone : contains (merge (remove s e) t) e ≡ false =
        elim (Bool-cases (contains (merge (remove s e) t) e)) [
          | inl h ↦
              let (d, k) =
                (contains_iff (merge (remove s e) t) e (merge-IsValid (remove s e) t vr vt)).0 h in
              absurd (
                ground (
                  arith,
                  sub d,
                  observed-merge (remove s e) t e d vt,
                  observed-remove s e e d,
                  entombed-merge (remove s e) t d vt,
                  entombed-remove s e d vs,
                ))
          | inr h ↦ h
        ] in
      (gone, rw (merge_comm t (remove s e) vt vr) gone)

  -- An insertion that the remover had not seen survives the removal, in whichever direction the two
  -- states are merged.
  pub contains-merge-remove_unseen :
      (s t : OrSet V) (e : V) (d : Dot)
      → IsValid s
      → IsValid t
      → Keeps t e d
      → observed s e d ≡ false
      → entombed s d ≡ false
      → (contains (merge (remove s e) t) e ≡ true) × (contains (merge t (remove s e)) e ≡ true)
  contains-merge-remove_unseen s t e d vs vt k unseen alive =
      let vr : IsValid (remove s e) = remove-IsValid s e vs in
      let stays : contains (merge (remove s e) t) e ≡ true =
        (contains_iff (merge (remove s e) t) e (merge-IsValid (remove s e) t vr vt)).1 (
          d,
          ground (
            arith,
            observed-merge (remove s e) t e d vt,
            entombed-merge (remove s e) t d vt,
            entombed-remove s e d vs,
          ),
        ) in
      (stays, rw (merge_comm t (remove s e) vt vr) stays)
