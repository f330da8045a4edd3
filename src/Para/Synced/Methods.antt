-- ===== src/Para/Synced/Methods.antt =====
-- What a program calls of crates/noeta-para-p2p/src/synced.rs: `synced_signal` and the methods of a
-- `SyncedSignal`.
use para_p2p.Common.{
  ℕ, zero, suc, String, Bool, true, false, not, ◌||◌, List, [], ◌∷◌, Option, none, some,
  if◌then◌else◌,
}
use para_p2p.Common.Io.{Io, Result, ok, pure, fail, ◌>>=◌, ◌>>◌}
use para_p2p.Common.Order.{string_discrete}
use para_p2p.Net.Crypto.{Bytes}
use para_p2p.Para.Ctx.{SyncedSignalBox, NativeCtx, Nodes, DynCrdt}
use Prim.Native.String.{◌++◌}
use para_p2p.Para.Native.{NativeValue}
use para_p2p.Para.Provider.{NodeConfig}
use para_p2p.Para.Synced.{free, merge_slots, slot_to_bytes, merge_peer_bytes, ok_or}

unfoldable pub is_encrypted : {NodeId Retained : Type 0} → SyncedSignalBox NodeId Retained → Bool
is_encrypted handle = elim handle.members [ [] ↦ false | _ ∷ _ ↦ true ]

-- The refusal of a change of members where there are none.
abbrev pub not_encrypted : String → String
not_encrypted method =
    "`" ++ method
    ++ "` is only valid on an encrypted synced_signal (one created with a members list)"

module _ (C : NativeCtx) (P : Nodes C.State) (D : DynCrdt C.Extern) where
  open C use {State, Slot, Retained, NodeId, Extern}

  -- `Ok` and `Err` as they come from elsewhere.
  unfoldable pub lift : {A : Type 0} → Result A → Io State A
  lift r s = (r, s)

  -- What a call hands back: a slot of its own making, or the cell that it read.
  pub data CtxOut : Type 0 where
    unit : CtxOut
    str : String → CtxOut
    extern : Extern → CtxOut
    retained : Retained → CtxOut

  abbrev pub Handle : Type 0
  Handle = SyncedSignalBox NodeId Retained

  unfoldable pub handle_of : Slot → Io State Handle
  handle_of recv = do
    e ← C.with_extern recv
    ok_or (C.downcast_signal e) "a SyncedSignal receiver wraps a SyncedSignalBox"

  -- `args[i]`, which the check of the arity comes before.
  unfoldable pub arg : List Slot → ℕ → Io State Slot
  arg [] i = fail "index out of bounds"
  arg (x ∷ xs) zero = pure x
  arg (x ∷ xs) (suc i) = arg xs i

  unfoldable pub string_of : Slot → String → String → Io State String
  string_of slot method expected = do
    v ← C.view slot
    elim v [ NativeValue.str s ↦ pure s | _ ↦ fail (C.type_error method expected) ]

  -- To the transport of the signal: encrypted for a group, in the open otherwise.
  unfoldable pub announce : Option NodeConfig → List String → String → Bytes → Io State (Unit {0})
  announce node [] topic bytes = P.publish_durable node topic bytes
  announce node (_ ∷ _) topic bytes = P.group_publish node topic bytes

  unfoldable pub merge : Handle → Slot → Io State (Unit {0})
  unfolding merge_slots slot_to_bytes free announce
  merge handle delta = do
    current_slot ← C.retained_get handle.cell
    merged_slot ← merge_slots C D current_slot delta
    bytes ← slot_to_bytes C D merged_slot
    C.retained_set handle.cell merged_slot
    free C D merged_slot
    free C D current_slot
    C.wake handle.node
    announce handle.p2p_node handle.members handle.topic bytes

  unfoldable pub poll : Handle → Io State (Option Bytes)
  unfolding is_encrypted
  poll handle =
      if is_encrypted handle
      then P.group_poll handle.p2p_node handle.subscription
      else P.poll_sub handle.p2p_node handle.subscription

  -- What a merged value replaces: whether it did, for an unchanged one stays as it is.
  unfoldable pub replace : Handle → Slot → Slot → Io State Bool
  unfolding free
  replace handle current_slot merged_slot = do
    same ← C.values_equal current_slot merged_slot
    (if same then pure tt else C.retained_set handle.cell merged_slot)
    free C D merged_slot
    pure (not same)

  -- One message of the loop in `sync`.
  unfoldable pub take_in : Handle → Bytes → Io State Bool
  unfolding merge_peer_bytes replace free
  take_in handle bytes = do
    current_slot ← C.retained_get handle.cell
    m ← merge_peer_bytes C D current_slot bytes
    changed ← elim m [
      | some merged_slot ↦ replace handle current_slot merged_slot
      | none ↦ pure false
    ]
    free C D current_slot
    pure changed

  -- The loop, for at most so many polls; `none` if the messages do not end by then.
  unfoldable pub drain : ℕ → Handle → Bool → Io State (Option Bool)
  drain zero handle changed = pure none
  drain (suc fuel) handle changed = do
    m ← poll handle
    elim m [
      | none ↦ pure (some changed)
      | some bytes ↦ (do c ← take_in handle bytes; drain fuel handle (changed || c))
    ]

  -- `none`: see `drain`.
  unfoldable pub sync : ℕ → Handle → Io State (Option (Unit {0}))
  sync fuel handle = do
    r ← drain fuel handle false
    elim r [
      | none ↦ pure none
      | some changed ↦ (do (if changed then C.wake handle.node else pure tt); pure (some tt))
    ]

  unfoldable pub get : Handle → Io State CtxOut
  get handle s = (ok (retained (C.read_source handle.node s).0), (C.read_source handle.node s).1)

  unfoldable pub status : Handle → Io State CtxOut
  status handle = do s ← P.sync_status handle.p2p_node handle.topic; pure (str (P.status_word s))

  unfoldable pub change_member :
      (Option NodeConfig → String → String → Io State (Unit {0}))
      → String
      → Handle
      → Slot
      → Io State (Unit {0})
  unfolding is_encrypted string_of
  change_member call method handle slot =
      if is_encrypted handle
      then (do
        member ← string_of slot method "a peer-id string"
        call handle.p2p_node handle.topic member)
      else fail (not_encrypted method)

  unfoldable pub one_argument : String → List Slot → Io State Slot
  unfolding lift arg
  one_argument method args = do lift (C.ctx_arity method args 1); arg args 0

  abbrev pub no_result : Option (Unit {0}) → Option CtxOut
  no_result none = none
  no_result (some _) = some unit

  abbrev is : String → String → Bool
  is a b = elim (string_discrete a b) [ yes _ ↦ true | no _ ↦ false ]

  -- `none`: see `drain`.
  unfoldable pub method_dispatch : ℕ → String → Slot → List Slot → Io State (Option CtxOut)
  unfolding handle_of lift one_argument get merge sync status change_member
  method_dispatch fuel method recv args = do
    handle ← handle_of recv
    (if is method "get"
        then (do lift (C.ctx_arity method args 0); r ← get handle; pure (some r))
        else if is method "merge"
        then (do delta ← one_argument method args; merge handle delta; pure (some unit))
        else if is method "sync"
        then (do lift (C.ctx_arity method args 0); r ← sync fuel handle; pure (no_result r))
        else if is method "status"
        then (do lift (C.ctx_arity method args 0); r ← status handle; pure (some r))
        else if is method "add_member"
        then (do
          member ← one_argument method args
          change_member P.group_add method handle member
          pure (some unit))
        else if is method "remove_member"
        then (do
          member ← one_argument method args
          change_member P.group_remove method handle member
          pure (some unit))
        else fail (C.no_method_error "SyncedSignal" method))
