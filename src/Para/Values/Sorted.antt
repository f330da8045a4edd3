-- ===== src/Para/Values/Sorted.antt =====
-- The maps inside a value as a `BTreeMap` keeps them: each key once, in order.
use para_p2p.Common.{String, Ordering, lt, eq, gt, ◌≡◌, refl}
use para_p2p.Common.Order.{string_ord, lt_of_gt}
use para_p2p.Crdt.Value.{CrdtValue, Items, Entries}
use para_p2p.Para.Values.{insert_entry}

module _ {F64 F32 : Type 0} where
  -- The key is before all others.
  abbrev pub IsBefore : String → Entries F64 F32 → Type 0
  IsBefore k Entries.end = Unit
  IsBefore k (Entries.entry j w rest) = (string_ord.cmp k j ≡ lt) × IsBefore k rest

  unfoldable mutual
    pub IsSorted : CrdtValue F64 F32 → Type 0
    IsSorted (CrdtValue.list items) = AreSorted items
    IsSorted (CrdtValue.map entries) = IsSortedMap entries
    IsSorted _ = Unit

    pub AreSorted : Items F64 F32 → Type 0
    AreSorted Items.nil = Unit
    AreSorted (Items.cons v vs) = IsSorted v × AreSorted vs

    pub IsSortedMap : Entries F64 F32 → Type 0
    IsSortedMap Entries.end = Unit
    IsSortedMap (Entries.entry k v rest) = IsSorted v × IsBefore k rest × IsSortedMap rest

  IsBefore-trans :
      (j k : String) (es : Entries F64 F32)
      → string_ord.cmp j k ≡ lt
      → IsBefore k es
      → IsBefore j es
  IsBefore-trans j k Entries.end h b = tt
  IsBefore-trans j k (Entries.entry i w rest) h (b, c) =
      (string_ord.lt_trans j k i h b, IsBefore-trans j k rest h c)

  insert_entry-IsBefore :
      (j k : String) (v : CrdtValue F64 F32) (es : Entries F64 F32)
      → string_ord.cmp j k ≡ lt
      → IsBefore j es
      → IsBefore j (insert_entry k v es)
  unfolding insert_entry
  insert_entry-IsBefore j k v Entries.end h b = (h, tt)
  insert_entry-IsBefore j k v (Entries.entry i w rest) h (b, c) =
      elim (string_ord.cmp k i)
        as (λ o. IsBefore j (elim o as (λ x. Entries F64 F32) [
          | lt ↦ Entries.entry k v (Entries.entry i w rest)
          | eq ↦ Entries.entry i v rest
          | gt ↦ Entries.entry i w (insert_entry k v rest)
        ])) [ lt ↦ (h, (b, c)) | eq ↦ (b, c) | gt ↦ (b, insert_entry-IsBefore j k v rest h c) ]

  pub insert_entry-IsSortedMap :
      (k : String) (v : CrdtValue F64 F32) (es : Entries F64 F32)
      → IsSorted v
      → IsSortedMap es
      → IsSortedMap (insert_entry k v es)
  unfolding insert_entry IsSorted
  insert_entry-IsSortedMap k v Entries.end s t = (s, tt, tt)
  insert_entry-IsSortedMap k v (Entries.entry i w rest) s (a, b, c) =
      placed (string_ord.cmp k i) refl (insert_entry-IsSortedMap k v rest s c)
    where
      placed :
          (o : Ordering)
          → string_ord.cmp k i ≡ o
          → IsSortedMap (insert_entry k v rest)
          → IsSortedMap (elim o as (λ x. Entries F64 F32) [
            | lt ↦ Entries.entry k v (Entries.entry i w rest)
            | eq ↦ Entries.entry i v rest
            | gt ↦ Entries.entry i w (insert_entry k v rest)
          ])
      placed lt e r = (s, (e, IsBefore-trans k i rest e b), (a, b, c))
      placed eq e r = (s, b, c)
      placed gt e r = (a, insert_entry-IsBefore i k v rest (lt_of_gt k i e) b, r)
