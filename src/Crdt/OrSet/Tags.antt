-- ===== src/Crdt/OrSet/Tags.antt =====
-- The state of an `OrSet` as two relations: which tags it has seen of which element, and which tags
-- are entombed. Each operation is described by what it does to the two.
use para_p2p.Common.{
  Ordering, lt, eq, gt, ◌≡◌, String, Bool, [], ◌||◌, ◌&&◌, Option, none, some, arith, unwrap_or,
}
use para_p2p.Common.Order.{Ord}
use para_p2p.Common.BTree
use para_p2p.Common.BTree.{BTreeSet, IsSorted, get, upsert, extend}
use para_p2p.Common.BTree.Lookup.{get-upsert, upsert-IsSorted, get-merge_with, joined}
use para_p2p.Common.BTree.Sets
use para_p2p.Common.BTree.Sets.{
  is_eq, contains-insert, contains-extend, extend-IsSorted, contains_nil,
}
use para_p2p.Crdt.Clock.{Dot, next_after, dot_ord}
use para_p2p.Crdt.OrSet.{OrSet, new, insert, remove, merge, tags_of, highest_counter}

abbrev pub AreSorted : Option (BTreeSet Dot) → Type 0
AreSorted none = Unit
AreSorted (some tags) = IsSorted tags

unwrap-IsSorted : (tags : Option (BTreeSet Dot)) → AreSorted tags → IsSorted (unwrap_or tags [])
unwrap-IsSorted none h = tt
unwrap-IsSorted (some tags) h = h

AreSorted-elim :
    (c : Ordering) (x y : Option (BTreeSet Dot))
    → AreSorted x
    → AreSorted y
    → AreSorted (elim c [ lt ↦ x | eq ↦ y | gt ↦ x ])
AreSorted-elim lt x y hx hy = hx
AreSorted-elim eq x y hx hy = hy
AreSorted-elim gt x y hx hy = hx

-- The tombstones after a removal, by the tags that the map holds.
abbrev entomb : BTreeSet Dot → Option (BTreeSet Dot) → BTreeSet Dot
entomb removed found = elim found [ none ↦ removed | some tags ↦ extend removed tags ]

entomb-IsSorted :
    (removed : BTreeSet Dot) (found : Option (BTreeSet Dot))
    → IsSorted removed
    → IsSorted (entomb removed found)
entomb-IsSorted removed none h = h
entomb-IsSorted removed (some tags) h = extend-IsSorted removed tags h

contains-entomb :
    (removed : BTreeSet Dot) (found : Option (BTreeSet Dot)) (d : Dot)
    → AreSorted found
    → Sets.contains d (entomb removed found)
      ≡ Sets.contains d removed || Sets.contains d (unwrap_or found [])
contains-entomb removed none d h = ground (arith, contains_nil d)
contains-entomb removed (some tags) d h = contains-extend d removed tags h

abbrev pub grow : Option (BTreeSet Dot) → BTreeSet Dot → BTreeSet Dot
grow old tags = extend (unwrap_or old []) tags

contains-joined :
    (x y : Option (BTreeSet Dot)) (d : Dot)
    → AreSorted y
    → Sets.contains d (unwrap_or (joined grow x y) [])
      ≡ Sets.contains d (unwrap_or x []) || Sets.contains d (unwrap_or y [])
contains-joined x none d h = ground (arith, contains_nil d)
contains-joined x (some tags) d h = contains-extend d (unwrap_or x []) tags h

module _ {ℓ} {V : Type ℓ} ⦃o : Ord V⦄ where
  abbrev pub observed : OrSet V → V → Dot → Bool
  observed s e d = Sets.contains d (tags_of s e)

  abbrev pub entombed : OrSet V → Dot → Bool
  entombed s d = Sets.contains d s.removed

  pub record IsValid (s : OrSet V) : Type ℓ where
    pub sorted : IsSorted s.adds
    pub tags_sorted : (e : V) → AreSorted (get e s.adds)
    pub removed_sorted : IsSorted s.removed

  pub tags_of-IsSorted : (s : OrSet V) (e : V) → IsValid s → IsSorted (tags_of s e)
  unfolding tags_of
  tags_of-IsSorted s e v = unwrap-IsSorted (get e s.adds) (v.tags_sorted e)

  pub new-IsValid : IsValid new
  unfolding new get
  new-IsValid = record { sorted = tt; tags_sorted = λ e. tt; removed_sorted = tt }

  AreSorted-upsert :
      (q e : V) (d : Dot) (s : OrSet V)
      → IsValid s
      → AreSorted (get q (upsert e (λ tags. BTree.insert d (unwrap_or tags [])) s.adds))
  AreSorted-upsert q e d s v =
      rw (get-upsert q e (λ tags. BTree.insert d (unwrap_or tags [])) s.adds) (
        AreSorted-elim (o.cmp q e) (get q s.adds) _ (v.tags_sorted q)
          (upsert-IsSorted d _ (unwrap_or (get e s.adds) []) (unwrap-IsSorted _ (v.tags_sorted e))))

  pub insert-IsValid : (s : OrSet V) (r : String) (e : V) → IsValid s → IsValid (insert s r e)
  unfolding insert
  insert-IsValid s r e v = record {
    sorted = upsert-IsSorted e _ s.adds v.sorted;
    tags_sorted = λ q. AreSorted-upsert q e (next_after (highest_counter s) r) s v;
    removed_sorted = v.removed_sorted;
  }

  pub remove-IsValid : (s : OrSet V) (e : V) → IsValid s → IsValid (remove s e)
  unfolding remove
  remove-IsValid s e v = record {
    sorted = v.sorted;
    tags_sorted = v.tags_sorted;
    removed_sorted = entomb-IsSorted s.removed (get e s.adds) v.removed_sorted;
  }

  -- What the operations do to the two relations.
  pub observed-insert :
      (s : OrSet V) (r : String) (e q : V) (d : Dot)
      → observed (insert s r e) q d
        ≡ is_eq (o.cmp q e) && is_eq (dot_ord.cmp d (next_after (highest_counter s) r))
          || observed s q d
  unfolding insert tags_of
  observed-insert s r e q d = ground (
    arith,
    get-upsert q e (λ tags. BTree.insert (next_after (highest_counter s) r) (unwrap_or tags []))
        s.adds,
    contains-insert d (next_after (highest_counter s) r) (tags_of s e),
    o.eq_of_cmp q e,
  )

  pub entombed-remove :
      (s : OrSet V) (e : V) (d : Dot)
      → IsValid s
      → entombed (remove s e) d ≡ entombed s d || observed s e d
  unfolding remove tags_of
  entombed-remove s e d v = contains-entomb s.removed (get e s.adds) d (v.tags_sorted e)

  pub observed-merge :
      (s t : OrSet V) (e : V) (d : Dot)
      → IsValid t
      → observed (merge s t) e d ≡ observed s e d || observed t e d
  unfolding merge tags_of
  observed-merge s t e d v =
      rw (get-merge_with grow e s.adds t.adds v.sorted)
        (contains-joined (get e s.adds) (get e t.adds) d (v.tags_sorted e))

  pub entombed-merge :
      (s t : OrSet V) (d : Dot) → IsValid t → entombed (merge s t) d ≡ entombed s d || entombed t d
  unfolding merge
  entombed-merge s t d v = contains-extend d s.removed t.removed v.removed_sorted
