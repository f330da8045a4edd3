-- ===== src/Para/Values/Tests.antt =====
-- Values in and out at a small map, with naturals for floats and a handle of one type.
use para_p2p.Common.{ℕ, String, ◌≡◌, refl, true, none}
use para_p2p.Common.Int.{pos}
use para_p2p.Common.Io.{ok, err}
use para_p2p.Common.Order.{string_ord}
use mathlib.Core.Option.{map as map_option}
use para_p2p.Crdt.Value.{CrdtValue, Items, Entries}
use para_p2p.Para.Native.{Scalar, NativeValue, NativeItems, NativeEntries}
use para_p2p.Para.Values.{from_native, insert_entry, to_out, unstorable}
use para_p2p.Para.Values.LastKey.{get, last_of, from_native-get}
use para_p2p.Para.Values.RoundTrip.{as_native, from_native_again}

data Handle : Type 0 where
  node : Handle

abbrev identity : Handle → String
identity node = "para.p2p.Node"

abbrev later : NativeValue ℕ ℕ Handle
later = NativeValue.list (NativeItems.cons (NativeValue.scalar (Scalar.bool true)) NativeItems.nil)

-- The key "b" comes before "a", and twice.
abbrev entries : NativeEntries ℕ ℕ Handle
entries =
    NativeEntries.entry "b" (NativeValue.scalar (Scalar.int (pos 2)))
      (NativeEntries.entry "a" NativeValue.unit (NativeEntries.entry "b" later NativeEntries.end))

abbrev given : NativeValue ℕ ℕ Handle
given = NativeValue.map entries

abbrev kept_list : CrdtValue ℕ ℕ
kept_list = CrdtValue.list (Items.cons (CrdtValue.bool true) Items.nil)

abbrev kept : CrdtValue ℕ ℕ
kept = CrdtValue.map (Entries.entry "a" CrdtValue.unit (Entries.entry "b" kept_list Entries.end))

given-kept : from_native identity "set" given ≡ ok kept
unfolding from_native insert_entry
given-kept = refl

handle-refused :
    from_native {F64 = ℕ} {F32 = ℕ} identity "set" (NativeValue.extern node)
    ≡ err (unstorable "set" "para.p2p.Node")
unfolding from_native
handle-refused = refl

from_native_again_example : from_native identity "set" (as_native (to_out kept)) ≡ ok kept
from_native_again_example = from_native_again identity "set" given kept given-kept

from_native-get_example :
    (m : Entries ℕ ℕ) × (CrdtValue.map m ≡ kept)
    × ((k : String)
        → map_option ok (get k m)
          ≡ map_option (from_native identity "set") (last_of k entries none))
from_native-get_example = from_native-get identity "set" entries kept given-kept
