-- ===== src/Para/Dispatch.antt =====
-- The free functions of crates/noeta-para-p2p/src/p2p.rs and the methods of a `Node` in node.rs, over
-- the registry of nodes.
pub mod Mirror
mod Tests
use para_p2p.Common.{ℕ, zero, suc, String, List, [], ◌∷◌, Option, none, some, if◌then◌else◌}
use para_p2p.Common.FilePath.{PathBuf}
use para_p2p.Common.Io.{Io, Result, ok, err, pure, fail, ◌>>=◌, ◌>>◌}
use para_p2p.Common.Order.{is_text}
use para_p2p.Net.Crypto.{Bytes}
use para_p2p.Para.Ctx.{NativeCtx, Nodes, DynCrdt}
use para_p2p.Para.Directory.{FileSystem}
use para_p2p.Para.Native.{NativeValue, NativeOut}
use para_p2p.Para.Provider
use para_p2p.Para.Provider.{NodeConfig}
use para_p2p.Para.Synced.Create.{create_synced_signal, infallible}

-- `NodeBox`: the name of a node, `none` for the broker.
pub record NodeBox : Type 0 where
  pub config : Option NodeConfig

-- `P2pReceiveIo`: what a pending receive waits on.
pub record P2pReceiveIo (Backend : Type 0) : Type 0 where
  pub backend : Backend
  pub topic : String

-- What a call gives: a value, or the slot of a future.
pub data CtxOut (F64 F32 E Slot : Type 0) : Type 0 where
  out : NativeOut F64 F32 E → CtxOut F64 F32 E Slot
  slot : Slot → CtxOut F64 F32 E Slot

-- What the calls reach besides the context: the registry (`backend_for`, see Provider/Host), the
-- trait `P2p` of a backend, the executor, and the paths and bytes of strings.
pub record Peers (C : NativeCtx) : Type 1 where
  pub Backend : Type 0
  pub backend_for : Option NodeConfig → Io C.State Backend
  -- `host_node_config`
  pub default_node : C.State → Option NodeConfig
  pub p2p_publish : Backend → String → Bytes → Io C.State (Unit {0})
  pub p2p_identity : Backend → Io C.State (Option String)
  pub spawn_io : P2pReceiveIo Backend → C.State → C.Slot × C.State
  pub box_node : NodeBox → C.Extern
  pub downcast_node : C.Extern → Option NodeBox
  pub file_system : FileSystem
  pub path_of : String → PathBuf
  pub into_bytes : String → Bytes

module _ (C : NativeCtx) (T : Peers C) where
  open C use {State, Slot, Extern, F64, F32}
  open T use {Backend}

  abbrev pub Answer : Type 0
  Answer = CtxOut F64 F32 Extern Slot

  unfoldable pub with_node : {R : Type 0} → Option NodeConfig → (Backend → Io State R) → Io State R
  with_node config f = do backend ← T.backend_for config; f backend

  unfoldable pub with_p2p : {R : Type 0} → (Backend → Io State R) → Io State R
  unfolding with_node
  with_p2p f = do config ← infallible (λ s. (T.default_node s, s)); with_node config f

  unfoldable pub receive_descriptor_for :
      Option NodeConfig → String → Io State (P2pReceiveIo Backend)
  receive_descriptor_for config topic = do
    backend ← T.backend_for config
    pure (record { backend = backend; topic = topic })

  unfoldable pub receive_descriptor : String → Io State (P2pReceiveIo Backend)
  unfolding receive_descriptor_for
  receive_descriptor topic = do
    config ← infallible (λ s. (T.default_node s, s))
    receive_descriptor_for config topic

  -- `ctx.view(args[index])`
  abbrev pub view_at : List Slot → ℕ → Io State (NativeValue F64 F32 Extern)
  view_at [] index = fail "index out of bounds"
  view_at (x ∷ xs) zero = C.view x
  view_at (x ∷ xs) (suc index) = view_at xs index

  unfoldable pub view_str : String → List Slot → ℕ → Io State String
  view_str func args index = do
    v ← view_at args index
    elim v [ NativeValue.str s ↦ pure s | _ ↦ fail (C.type_error func "string") ]

  unfoldable pub view_message : String → List Slot → ℕ → Io State Bytes
  view_message func args index = do
    v ← view_at args index
    elim v [
      | NativeValue.str s ↦ pure (T.into_bytes s)
      | NativeValue.bytes b ↦ pure b
      | _ ↦ fail (C.type_error func "string|bytes")
    ]

  -- `ctx_arity(…)?`
  abbrev pub arity : String → List Slot → ℕ → Io State (Unit {0})
  arity func args expected s = (C.ctx_arity func args expected, s)

  abbrev pub identity_out : Option String → Answer
  identity_out (some hex) = CtxOut.out (NativeOut.present (NativeOut.str hex))
  identity_out none = CtxOut.out NativeOut.absent

  abbrev pub node_out : Option NodeConfig → Answer
  node_out config = CtxOut.out (NativeOut.extern (T.box_node (record { config = config })))

  -- A ticket on the executor.
  abbrev pub spawned : P2pReceiveIo Backend → Io State Answer
  spawned io = do future ← infallible (T.spawn_io io); pure (CtxOut.slot future)

  unfoldable pub p2p_ctx_dispatch : String → List Slot → Io State Answer
  unfolding with_p2p receive_descriptor view_str view_message
  p2p_ctx_dispatch func args =
      if is_text func "open"
      then (do
        arity func args 1
        dir ← view_str func args 0
        pure (node_out (some (Provider.at T.file_system (T.path_of dir)))))
      else if is_text func "node"
      then (do
        arity func args 0
        config ← infallible (λ s. (T.default_node s, s))
        pure (node_out config))
      else if is_text func "publish"
      then (do
        arity func args 2
        topic ← view_str func args 0
        message ← view_message func args 1
        with_p2p (λ p. T.p2p_publish p topic message)
        pure (CtxOut.out NativeOut.unit))
      else if is_text func "receive"
      then (do
        arity func args 1
        topic ← view_str func args 0
        io ← receive_descriptor topic
        spawned io)
      else if is_text func "identity"
      then (do arity func args 0; hex ← with_p2p (λ p. T.p2p_identity p); pure (identity_out hex))
      else fail (C.no_function_error "p2p" func)

  -- A receiver that is no `Node` would panic.
  unfoldable pub handle_of : Slot → Io State NodeBox
  handle_of recv = do
    e ← C.with_extern recv
    elim (T.downcast_node e) [
      | some handle ↦ pure handle
      | none ↦ fail "a Node receiver wraps a NodeBox"
    ]

  module _ (P : Nodes State) (D : DynCrdt Extern) where
    unfoldable pub on_handle : NodeBox → String → List Slot → Io State Answer
    unfolding with_node receive_descriptor_for view_str view_message
    on_handle handle method args =
        if is_text method "publish"
        then (do
          arity method args 2
          topic ← view_str method args 0
          message ← view_message method args 1
          with_node handle.config (λ p. T.p2p_publish p topic message)
          pure (CtxOut.out NativeOut.unit))
        else if is_text method "receive"
        then (do
          arity method args 1
          topic ← view_str method args 0
          io ← receive_descriptor_for handle.config topic
          spawned io)
        else if is_text method "identity"
        then (do
          arity method args 0
          hex ← with_node handle.config (λ p. T.p2p_identity p)
          pure (identity_out hex))
        else if is_text method "synced_signal"
        then (do
          signal ← create_synced_signal C P D handle.config method args
          pure (CtxOut.out (NativeOut.extern (C.box_signal signal))))
        else fail (C.no_method_error "Node" method)

    unfoldable pub node_ctx_method_dispatch : String → Slot → List Slot → Io State Answer
    unfolding handle_of on_handle
    node_ctx_method_dispatch method recv args = do
      handle ← handle_of recv
      on_handle handle method args
