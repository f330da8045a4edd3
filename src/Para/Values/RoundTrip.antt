-- ===== src/Para/Values/RoundTrip.antt =====
-- What goes into a CRDT comes back out of it.
use para_p2p.Common.{String, ◌≡◌, refl, ap, ◌∙◌, sym, subst}
use para_p2p.Common.Io.{Result, ok}
use para_p2p.Common.Order.{string_ord}
use para_p2p.Crdt.Value.{CrdtValue, Items, Entries}
use para_p2p.Para.Native.{
  Scalar, NativeValue, NativeItems, NativeEntries, NativeOut, OutItems, OutEntries,
}
use para_p2p.Para.Values.{
  from_native, from_items, from_entries, to_out, to_out_items, to_out_entries, insert_entry, map_ok,
  and_then,
}
use para_p2p.Para.Values.Append.{
  append, IsAfter, AreApart, insert_entry-last, append-AreApart, append-end, append_assoc,
  end-AreApart,
}
use para_p2p.Para.Values.Outcome.{map_ok-ok, and_then-ok, ok_has}
use para_p2p.Para.Values.Sorted.{IsSorted, AreSorted, IsSortedMap, insert_entry-IsSortedMap}

module _ {F64 F32 E : Type 0} where
  -- What a call returned, handed to the next call. Nothing but values that a CRDT can hold is read
  -- here, so `some` of a value is the value itself.
  unfoldable mutual
    pub as_native : NativeOut F64 F32 E → NativeValue F64 F32 E
    as_native NativeOut.unit = NativeValue.unit
    as_native (NativeOut.scalar x) = NativeValue.scalar x
    as_native (NativeOut.str s) = NativeValue.str s
    as_native (NativeOut.bytes b) = NativeValue.bytes b
    as_native (NativeOut.list items) = NativeValue.list (as_items items)
    as_native (NativeOut.map entries) = NativeValue.map (as_entries entries)
    as_native NativeOut.absent = NativeValue.unit
    as_native (NativeOut.present x) = as_native x
    as_native (NativeOut.extern e) = NativeValue.extern e

    pub as_items : OutItems F64 F32 E → NativeItems F64 F32 E
    as_items OutItems.nil = NativeItems.nil
    as_items (OutItems.cons x xs) = NativeItems.cons (as_native x) (as_items xs)

    pub as_entries : OutEntries F64 F32 E → NativeEntries F64 F32 E
    as_entries OutEntries.end = NativeEntries.end
    as_entries (OutEntries.entry k x rest) = NativeEntries.entry k (as_native x) (as_entries rest)

module _ {F64 F32 E : Type 0} (type_identity : E → String) (method : String) where
  mutual
    unfolding from_native IsSorted

    pub from_native-IsSorted :
        (x : NativeValue F64 F32 E) (v : CrdtValue F64 F32)
        → from_native type_identity method x ≡ ok v
        → IsSorted v
    from_native-IsSorted NativeValue.unit v h = ok_has IsSorted tt h
    from_native-IsSorted (NativeValue.scalar (Scalar.bool b)) v h = ok_has IsSorted tt h
    from_native-IsSorted (NativeValue.scalar (Scalar.int n)) v h = ok_has IsSorted tt h
    from_native-IsSorted (NativeValue.scalar (Scalar.float x)) v h = ok_has IsSorted tt h
    from_native-IsSorted (NativeValue.scalar (Scalar.f32 x)) v h = ok_has IsSorted tt h
    from_native-IsSorted (NativeValue.str s) v h = ok_has IsSorted tt h
    from_native-IsSorted (NativeValue.bytes b) v h = ok_has IsSorted tt h
    from_native-IsSorted (NativeValue.list items) v h =
        let (vs, e, f) = map_ok-ok CrdtValue.list (from_items type_identity method items) v h in
        subst IsSorted f (from_items-AreSorted items vs e)
    from_native-IsSorted (NativeValue.map entries) v h =
        let (m, e, f) =
          map_ok-ok CrdtValue.map (from_entries type_identity method entries Entries.end) v h in
        subst IsSorted f (from_entries-IsSortedMap entries Entries.end m tt e)
    from_native-IsSorted x v h = cc

    from_items-AreSorted :
        (xs : NativeItems F64 F32 E) (vs : Items F64 F32)
        → from_items type_identity method xs ≡ ok vs
        → AreSorted vs
    from_items-AreSorted NativeItems.nil vs h = ok_has AreSorted tt h
    from_items-AreSorted (NativeItems.cons x xs) vs h =
        let (v, e, f) =
          and_then-ok (from_native type_identity method x)
            (λ a. map_ok (Items.cons a) (from_items type_identity method xs)) vs h in
        let (ws, g, k) = map_ok-ok (Items.cons v) (from_items type_identity method xs) vs f in
        subst AreSorted k (from_native-IsSorted x v e, from_items-AreSorted xs ws g)

    from_entries-IsSortedMap :
        (xs : NativeEntries F64 F32 E) (acc m : Entries F64 F32)
        → IsSortedMap acc
        → from_entries type_identity method xs acc ≡ ok m
        → IsSortedMap m
    from_entries-IsSortedMap NativeEntries.end acc m s h = ok_has IsSortedMap s h
    from_entries-IsSortedMap (NativeEntries.entry k x rest) acc m s h =
        let (v, e, f) =
          and_then-ok (from_native type_identity method x)
            (λ a. from_entries type_identity method rest (insert_entry k a acc)) m h in
        from_entries-IsSortedMap rest (insert_entry k v acc) m
          (insert_entry-IsSortedMap k v acc (from_native-IsSorted x v e) s) f

  -- Each entry that is read back goes after those that were there.
  and_then-append :
      (acc es : Entries F64 F32) (k : String) (v : CrdtValue F64 F32)
      (r : Result (CrdtValue F64 F32)) (next : Entries F64 F32 → Result (Entries F64 F32))
      → r ≡ ok v
      → IsAfter acc k
      → next (append acc (Entries.entry k v Entries.end))
        ≡ ok (append (append acc (Entries.entry k v Entries.end)) es)
      → and_then r (λ a. next (insert_entry k a acc)) ≡ ok (append acc (Entries.entry k v es))
  and_then-append acc es k v r next h a n =
      ap (λ x. and_then x (λ a. next (insert_entry k a acc))) h
      ∙ ap next (insert_entry-last acc k v a)
      ∙ n
      ∙ ap ok (append_assoc acc es k v)

  mutual
    unfolding from_native to_out as_native IsSorted AreApart append

    from_native-to_out :
        (v : CrdtValue F64 F32)
        → IsSorted v
        → from_native type_identity method (as_native (to_out v)) ≡ ok v
    from_native-to_out CrdtValue.unit s = refl
    from_native-to_out (CrdtValue.bool b) s = refl
    from_native-to_out (CrdtValue.int n) s = refl
    from_native-to_out (CrdtValue.float x) s = refl
    from_native-to_out (CrdtValue.f32 x) s = refl
    from_native-to_out (CrdtValue.str t) s = refl
    from_native-to_out (CrdtValue.bytes b) s = refl
    from_native-to_out (CrdtValue.list items) s =
        ap (map_ok CrdtValue.list) (from_items-to_out_items items s)
    from_native-to_out (CrdtValue.map entries) s =
        ap (map_ok CrdtValue.map)
          (from_entries-to_out_entries entries Entries.end s (end-AreApart entries))

    from_items-to_out_items :
        (vs : Items F64 F32)
        → AreSorted vs
        → from_items type_identity method (as_items (to_out_items vs)) ≡ ok vs
    from_items-to_out_items Items.nil s = refl
    from_items-to_out_items (Items.cons v vs) (s, t) =
        ap
          (λ x. and_then x (λ a.
            map_ok (Items.cons a) (from_items type_identity method (as_items (to_out_items vs)))))
          (from_native-to_out v s)
        ∙ ap (map_ok (Items.cons v)) (from_items-to_out_items vs t)

    from_entries-to_out_entries :
        (es acc : Entries F64 F32)
        → IsSortedMap es
        → AreApart acc es
        → from_entries type_identity method (as_entries (to_out_entries es)) acc
          ≡ ok (append acc es)
    from_entries-to_out_entries Entries.end acc s a = ap ok (sym (append-end acc))
    from_entries-to_out_entries (Entries.entry k v rest) acc (s, b, t) (a, c) =
        and_then-append acc rest k v (from_native type_identity method (as_native (to_out v)))
          (from_entries type_identity method (as_entries (to_out_entries rest)))
          (from_native-to_out v s) a
          (from_entries-to_out_entries rest (append acc (Entries.entry k v Entries.end)) t
            (append-AreApart acc rest k v c b))

  -- If a value of the language is accepted for storing, then what is read back of the stored value
  -- is accepted again and stored as the same value, to any depth of lists and maps.
  pub from_native_again :
      (x : NativeValue F64 F32 E) (v : CrdtValue F64 F32)
      → from_native type_identity method x ≡ ok v
      → from_native type_identity method (as_native (to_out v)) ≡ ok v
  from_native_again x v h = from_native-to_out v (from_native-IsSorted x v h)
