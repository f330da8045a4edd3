-- ===== src/Para/Values.antt =====
-- crates/noeta-para-p2p/src/values.rs: a value of the language becomes data that a CRDT stores, and
-- comes back.
pub mod Append
pub mod Outcome
pub mod LastKey
pub mod Sorted
pub mod RoundTrip
mod Tests
use Prim.Native.String.{◌++◌}
use para_p2p.Common.{ℕ, String, Bool, List, Ordering, lt, eq, gt}
use para_p2p.Common.Io.{Result, ok, err}
use para_p2p.Common.Order.{string_ord}
use para_p2p.Crdt.Value.{CrdtValue, Items, Entries}
use para_p2p.Para.Native.{
  Scalar, NativeValue, NativeItems, NativeEntries, NativeOut, OutItems, OutEntries,
}

-- The message of the refusal.
unfoldable pub unstorable : String → String → String
unstorable method type_name =
    "`" ++ method
    ++ "` stores data — a number, bool, string, bytes, or a list or map of them — and `"
    ++ type_name ++ "` is not data a peer could be sent"

-- `Result::map` and `?`
abbrev pub map_ok {ℓ κ} : {A : Type ℓ} {B : Type κ} → (A → B) → Result A → Result B
map_ok f (ok a) = ok (f a)
map_ok f (err e) = err e

abbrev pub and_then {ℓ κ} : {A : Type ℓ} {B : Type κ} → Result A → (A → Result B) → Result B
and_then (ok a) f = f a
and_then (err e) f = err e

module _ {F64 F32 : Type 0} where
  -- `BTreeMap::insert`: a later value wins.
  unfoldable pub insert_entry : String → CrdtValue F64 F32 → Entries F64 F32 → Entries F64 F32
  insert_entry k v Entries.end = Entries.entry k v Entries.end
  insert_entry k v (Entries.entry j w rest) = elim (string_ord.cmp k j) [
    | lt ↦ Entries.entry k v (Entries.entry j w rest)
    | eq ↦ Entries.entry j v rest
    | gt ↦ Entries.entry j w (insert_entry k v rest)
  ]

module _ {F64 F32 E : Type 0} (type_identity : E → String) (method : String) where
  unfoldable mutual
    unfolding insert_entry

    pub from_native : NativeValue F64 F32 E → Result (CrdtValue F64 F32)
    from_native NativeValue.unit = ok CrdtValue.unit
    from_native (NativeValue.scalar (Scalar.bool b)) = ok (CrdtValue.bool b)
    from_native (NativeValue.scalar (Scalar.int n)) = ok (CrdtValue.int n)
    from_native (NativeValue.scalar (Scalar.float x)) = ok (CrdtValue.float x)
    from_native (NativeValue.scalar (Scalar.f32 x)) = ok (CrdtValue.f32 x)
    from_native (NativeValue.str s) = ok (CrdtValue.str s)
    from_native (NativeValue.bytes b) = ok (CrdtValue.bytes b)
    from_native (NativeValue.list items) = map_ok CrdtValue.list (from_items items)
    from_native (NativeValue.map entries) = map_ok CrdtValue.map (from_entries entries Entries.end)
    from_native (NativeValue.variant enum_name) = err (unstorable method enum_name)
    from_native (NativeValue.instance_of class) = err (unstorable method class)
    from_native (NativeValue.extern handle) = err (unstorable method (type_identity handle))
    from_native (NativeValue.object type_name) = err (unstorable method type_name)
    from_native (NativeValue.opaque type_name) = err (unstorable method type_name)

    pub from_items : NativeItems F64 F32 E → Result (Items F64 F32)
    from_items NativeItems.nil = ok Items.nil
    from_items (NativeItems.cons x xs) =
        and_then (from_native x) (λ v. map_ok (Items.cons v) (from_items xs))

    -- The loop over the entries, with the map that they have made so far.
    pub from_entries : NativeEntries F64 F32 E → Entries F64 F32 → Result (Entries F64 F32)
    from_entries NativeEntries.end map = ok map
    from_entries (NativeEntries.entry k x rest) map =
        and_then (from_native x) (λ v. from_entries rest (insert_entry k v map))

module _ {F64 F32 E : Type 0} where
  unfoldable mutual
    pub to_out : CrdtValue F64 F32 → NativeOut F64 F32 E
    to_out CrdtValue.unit = NativeOut.unit
    to_out (CrdtValue.bool b) = NativeOut.scalar (Scalar.bool b)
    to_out (CrdtValue.int n) = NativeOut.scalar (Scalar.int n)
    to_out (CrdtValue.float x) = NativeOut.scalar (Scalar.float x)
    to_out (CrdtValue.f32 x) = NativeOut.scalar (Scalar.f32 x)
    to_out (CrdtValue.str s) = NativeOut.str s
    to_out (CrdtValue.bytes b) = NativeOut.bytes b
    to_out (CrdtValue.list items) = NativeOut.list (to_out_items items)
    to_out (CrdtValue.map entries) = NativeOut.map (to_out_entries entries)

    pub to_out_items : Items F64 F32 → OutItems F64 F32 E
    to_out_items Items.nil = OutItems.nil
    to_out_items (Items.cons v vs) = OutItems.cons (to_out v) (to_out_items vs)

    pub to_out_entries : Entries F64 F32 → OutEntries F64 F32 E
    to_out_entries Entries.end = OutEntries.end
    to_out_entries (Entries.entry k v rest) = OutEntries.entry k (to_out v) (to_out_entries rest)
