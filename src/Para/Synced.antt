-- ===== src/Para/Synced.antt =====
-- crates/noeta-para-p2p/src/synced.rs: a signal that is shared. It holds a CRDT in a cell of the
-- host, which the reactive graph watches, and exchanges its states over a topic.
pub mod Methods
pub mod Create
pub mod Laws
pub mod TakeIn
pub mod Local
pub mod Lattice
pub mod Converge
mod Tests
pub mod Drain
use para_p2p.Common.{
  ℕ, zero, suc, String, Bool, true, false, not, ◌||◌, List, [], ◌∷◌, Option, none, some,
  if◌then◌else◌,
}
use para_p2p.Common.Io.{Io, Result, ok, err, pure, fail, get, modify, attempt, ◌>>=◌, ◌>>◌}
use para_p2p.Common.Order.{string_discrete}
use para_p2p.Net.Crypto.{Bytes}
use para_p2p.Para.Ctx.{SyncedSignalBox, NativeCtx, Nodes, DynCrdt}
use Prim.Native.String.{◌++◌}
use para_p2p.Para.Native.{NativeValue, NativeItems}
use para_p2p.Para.Provider.{NodeConfig}

-- The messages.
abbrev pub not_syncable : String
not_syncable =
    "this value cannot be synced: it does not implement `Syncable` (`to_bytes` / `merge_bytes`)"

abbrev pub bad_encoding : String
bad_encoding = "`Syncable` implementation is malformed: to_bytes must return bytes"

abbrev pub not_a_crdt : String
not_a_crdt =
    "a synced value must be a CRDT: one of `para.crdt`'s own types, or a type "
    ++ "implementing `Mergeable` + `Syncable`"

abbrev pub mismatched_merge : String
mismatched_merge = "cannot merge CRDT values of different types"

-- `ok_or_else`
abbrev pub ok_or : {S A : Type 0} → Option A → String → Io S A
ok_or none e = fail e
ok_or (some a) e = pure a

module _ (C : NativeCtx) (D : DynCrdt C.Extern) where
  open C use {State, Slot, Extern}

  unfoldable pub clone_crdt : Slot → Io State (Option Extern)
  clone_crdt slot = do
    r ← attempt (C.with_extern slot)
    elim r [
      | ok e ↦ elim (D.to_bytes_dyn e) [ some _ ↦ pure (some e) | none ↦ pure none ]
      | err _ ↦ pure none
    ]

  unfoldable pub free : Slot → Io State (Unit {0})
  free slot = modify (C.free slot)

  -- The clones of both, if both are CRDTs of this library.
  unfoldable pub both : Option Extern → Option Extern → Option (Extern × Extern)
  both (some a) (some b) = some (a, b)
  both _ _ = none

  unfoldable pub merge_slots : Slot → Slot → Io State Slot
  unfolding clone_crdt both
  merge_slots current delta = do
    a ← clone_crdt current
    b ← clone_crdt delta
    elim (both a b) [
      | some (x, y) ↦ (do merged ← ok_or (D.merge_dyn x y) mismatched_merge; C.intern_extern merged)
      | none ↦ (do r ← C.call_method current "merge" (delta ∷ []); ok_or r not_a_crdt)
    ]

  unfoldable pub slot_to_bytes : Slot → Io State Bytes
  unfolding clone_crdt free
  slot_to_bytes value = do
    c ← clone_crdt value
    elim c [
      | some e ↦ ok_or (D.to_bytes_dyn e) not_a_crdt
      | none ↦ (do
        r ← C.call_method value "to_bytes" []
        encoded ← ok_or r not_syncable
        bytes ← C.bytes_of encoded
        free encoded
        ok_or bytes bad_encoding)
    ]

  -- `none`: the payload is no state of this type.
  unfoldable pub merge_peer_bytes : Slot → Bytes → Io State (Option Slot)
  unfolding clone_crdt free
  merge_peer_bytes current bytes = do
    c ← clone_crdt current
    elim c [
      | some e ↦ elim (D.from_bytes_like e bytes) [
        | none ↦ pure none
        | some peer ↦ (do
          merged ← ok_or (D.merge_dyn e peer) mismatched_merge
          slot ← C.intern_extern merged
          pure (some slot))
      ]
      | none ↦ (do
        encoded ← C.intern_bytes bytes
        merged ← C.call_method current "merge_bytes" (encoded ∷ [])
        free encoded
        slot ← ok_or merged not_syncable
        pure (some slot))
    ]
