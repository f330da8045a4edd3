-- ===== src/Para/Synced/Create.antt =====
-- `synced_signal` of crates/noeta-para-p2p/src/synced.rs: a new signal subscribes to its topic and
-- announces its state.
use para_p2p.Common.{ℕ, String, List, [], ◌∷◌, Option, if◌then◌else◌}
use para_p2p.Common.Io.{Io, ok, pure, fail, ◌>>=◌, ◌>>◌}
use para_p2p.Common.Order.{string_discrete}
use para_p2p.Para.Ctx.{NativeCtx, Nodes, DynCrdt}
use Prim.Native.String.{◌++◌}
use para_p2p.Para.Native.{NativeValue, NativeItems}
use para_p2p.Para.Provider.{NodeConfig}
use para_p2p.Para.Synced.{slot_to_bytes}
use para_p2p.Common.{ltb, length}
use para_p2p.Para.Synced.Methods.{Handle, string_of, announce}

-- A call that cannot fail.
abbrev pub infallible : {S A : Type 0} → (S → A × S) → Io S A
infallible f s = (ok (f s).0, (f s).1)

module _ (C : NativeCtx) (P : Nodes C.State) (D : DynCrdt C.Extern) where
  open C use {State, Slot, Retained, NodeId, Extern}

  unfoldable pub wrong_arity : String → ℕ → String
  wrong_arity func supplied =
      "`"
      ++ func
      ++ "` takes 2 or 3 value arguments but "
      ++ C.display_usize supplied
      ++ " were supplied"

  -- `args` is the initial value, the topic and, perhaps, the members.
  unfoldable pub members_of : NativeItems C.F64 C.F32 Extern → Io State (List String)
  members_of NativeItems.nil = pure []
  members_of (NativeItems.cons (NativeValue.str s) rest) = do
    members ← members_of rest
    pure (s ∷ members)
  members_of (NativeItems.cons _ rest) =
      fail (C.type_error "synced_signal" "a list of peer-id strings")

  unfoldable pub members_arg : List Slot → Io State (List String)
  unfolding members_of
  members_arg [] = pure []
  members_arg (slot ∷ _) = do
    v ← C.view slot
    elim v [
      | NativeValue.list items ↦ members_of items
      | _ ↦ fail (C.type_error "synced_signal" "a list of peer-id strings")
    ]

  unfoldable pub open_topic : Option NodeConfig → List String → String → Io State ℕ
  open_topic node [] topic = P.subscribe_durable node topic
  open_topic node (m ∷ ms) topic = P.group_open node topic (m ∷ ms)

  unfoldable pub create_synced_signal :
      Option NodeConfig → String → List Slot → Io State (Handle C P D)
  unfolding string_of members_arg slot_to_bytes open_topic announce
  create_synced_signal node func (initial ∷ name ∷ rest) =
      if ltb 1 (length rest) then fail (wrong_arity func (length (initial ∷ name ∷ rest))) else (do
        topic ← string_of C P D name "synced_signal" "string"
        members ← members_arg rest
        bytes ← slot_to_bytes C D initial
        subscription ← open_topic node members topic
        announce C P D node members topic bytes
        cell ← C.retain initial
        graph_node ← infallible (C.create_source cell)
        pure (record {
          node = graph_node;
          cell = cell;
          subscription = subscription;
          topic = topic;
          members = members;
          p2p_node = node;
        }))
  create_synced_signal _ func args = fail (wrong_arity func (length args))

  -- `synced_ctx_dispatch`
  unfoldable pub ctx_dispatch : String → List Slot → Io State Extern
  unfolding create_synced_signal
  ctx_dispatch func args = elim (string_discrete func "synced_signal") [
    | yes _ ↦ (do
      node ← infallible (λ s. (P.default_node s, s))
      handle ← create_synced_signal node func args
      pure (C.box_signal handle))
    | no _ ↦ fail (C.no_function_error "synced" func)
  ]
