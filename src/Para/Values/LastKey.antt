-- ===== src/Para/Values/LastKey.antt =====
-- A map that is stored has, for each key, what the last entry of that key had.
use para_p2p.Common.{String, Option, none, some, eq, ◌≡◌, ◌≢◌, refl, ap, sym, ◌∙◌, arith}
use mathlib.Core.Option.{map as map_option}
use para_p2p.Common.Io.{ok}
use para_p2p.Common.Order.{string_ord, string_discrete, cmp_refl}
use para_p2p.Crdt.Value.{CrdtValue, Entries}
use para_p2p.Para.Native.{NativeValue, NativeEntries}
use para_p2p.Para.Values.{from_native, from_entries, insert_entry}
use para_p2p.Para.Values.Outcome.{map_ok-ok, and_then-ok, ok_has}

module _ {F64 F32 : Type 0} where
  -- `BTreeMap::get`
  unfoldable pub get : String → Entries F64 F32 → Option (CrdtValue F64 F32)
  get k Entries.end = none
  get k (Entries.entry j v rest) = elim (string_discrete k j) [ yes e ↦ some v | no n ↦ get k rest ]

  get-insert_entry_self :
      (k : String) (v : CrdtValue F64 F32) (es : Entries F64 F32)
      → get k (insert_entry k v es) ≡ some v
  unfolding get insert_entry
  get-insert_entry_self k v Entries.end = ground arith
  get-insert_entry_self k v (Entries.entry j w rest) =
      let h = get-insert_entry_self k v rest in
      let p = string_ord.eq_of_cmp k j in
      let q : k ≡ j → string_ord.cmp k j ≡ eq = λ e. ap (string_ord.cmp k) (sym e) ∙ cmp_refl k in
      ground arith

  get-insert_entry_other :
      (k j : String) (v : CrdtValue F64 F32) (es : Entries F64 F32)
      → k ≢ j
      → get k (insert_entry j v es) ≡ get k es
  unfolding get insert_entry
  get-insert_entry_other k j v Entries.end n = ground arith
  get-insert_entry_other k j v (Entries.entry i w rest) n =
      let h = get-insert_entry_other k j v rest n in
      let p = string_ord.eq_of_cmp j i in ground arith

module _ {F64 F32 E : Type 0} where
  -- The value of the last entry of a key.
  unfoldable pub last_of :
      String
      → NativeEntries F64 F32 E
      → Option (NativeValue F64 F32 E)
      → Option (NativeValue F64 F32 E)
  last_of k NativeEntries.end found = found
  last_of k (NativeEntries.entry j x rest) found =
      last_of k rest (elim (string_discrete k j) [ yes e ↦ some x | no n ↦ found ])

module _ {F64 F32 E : Type 0} (type_identity : E → String) (method : String) where
  from_entries-get :
      (k : String) (xs : NativeEntries F64 F32 E) (acc m : Entries F64 F32)
      (found : Option (NativeValue F64 F32 E))
      → from_entries type_identity method xs acc ≡ ok m
      → map_option ok (get k acc) ≡ map_option (from_native type_identity method) found
      → map_option ok (get k m) ≡ map_option (from_native type_identity method) (last_of k xs found)
  unfolding from_entries last_of
  from_entries-get k NativeEntries.end acc m found h e =
      ok_has (λ a. map_option ok (get k a) ≡ map_option (from_native type_identity method) found) e
        h
  from_entries-get k (NativeEntries.entry j x rest) acc m found h e =
      let (v, p, q) =
        and_then-ok (from_native type_identity method x)
          (λ a. from_entries type_identity method rest (insert_entry j a acc)) m h in
      from_entries-get k rest (insert_entry j v acc) m _ q (step (string_discrete k j) v p)
    where
      step :
          (d : Dec (k ≡ j)) (v : CrdtValue F64 F32)
          → from_native type_identity method x ≡ ok v
          → map_option ok (get k (insert_entry j v acc))
            ≡ map_option
                (from_native type_identity method)
                (elim d [ yes p ↦ some x | no n ↦ found ])
      step (yes p) v q =
          ap (map_option ok)
            (ap (λ a. get a (insert_entry j v acc)) p ∙ get-insert_entry_self j v acc)
          ∙ sym (ap some q)
      step (no n) v q = ap (map_option ok) (get-insert_entry_other k j v acc n) ∙ e

  -- A map that is accepted for storing is stored as a map that has, under each key, the stored form
  -- of the value in the last entry of that key, and nothing under a key that has no entry.
  pub from_native-get :
      (xs : NativeEntries F64 F32 E) (v : CrdtValue F64 F32)
      → from_native type_identity method (NativeValue.map xs) ≡ ok v
      → (m : Entries F64 F32) × (CrdtValue.map m ≡ v)
        × ((k : String)
            → map_option ok (get k m)
              ≡ map_option (from_native type_identity method) (last_of k xs none))
  unfolding from_native get
  from_native-get xs v h =
      let (m, e, f) =
        map_ok-ok CrdtValue.map (from_entries type_identity method xs Entries.end) v h in
      (m, f, λ k. from_entries-get k xs Entries.end m none e refl)
