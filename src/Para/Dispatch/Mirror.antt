-- ===== src/Para/Dispatch/Mirror.antt =====
-- A free function is the method of its name on the default node.
use para_p2p.Common.{String, List, [], Option, some, ◌≡◌, refl, sym, ap, fun_ext}
use para_p2p.Common.Io.{Io, ok, pure, ◌>>=◌, ◌>>◌}
use para_p2p.Common.Order.{string_discrete}
use para_p2p.Para.Ctx.{NativeCtx, Nodes, DynCrdt}
use para_p2p.Para.Dispatch.{
  Peers, NodeBox, CtxOut, Answer, P2pReceiveIo, with_node, with_p2p, receive_descriptor_for,
  receive_descriptor, view_str, view_message, arity, identity_out, node_out, spawned,
  p2p_ctx_dispatch, handle_of, on_handle, node_ctx_method_dispatch,
}
use para_p2p.Para.Native.{NativeOut}
use para_p2p.Para.Provider.{NodeConfig}

-- The names that both tables have.
pub data Shared : Type 0 where
  publish receive identity : Shared

abbrev pub word : Shared → String
word Shared.publish = "publish"
word Shared.receive = "receive"
word Shared.identity = "identity"

module _ {C : NativeCtx} (T : Peers C) (default : Option NodeConfig)
    (fixed : (s : C.State) → T.default_node s ≡ default) where
  open C use {State, Slot}
  open T use {Backend}

  with_p2p-with_node :
      {R : Type 0} (f : Backend → Io State R) → with_p2p C T f ≡ with_node C T default f
  unfolding with_p2p
  with_p2p-with_node f = fun_ext (λ s. ap (λ config. with_node C T config f s) (fixed s))

  receive_descriptor-for :
      (topic : String) → receive_descriptor C T topic ≡ receive_descriptor_for C T default topic
  unfolding receive_descriptor
  receive_descriptor-for topic =
      fun_ext (λ s. ap (λ config. receive_descriptor_for C T config topic s) (fixed s))

  module _ (P : Nodes State) (D : DynCrdt C.Extern) where
    abbrev default_handle : NodeBox
    default_handle = record { config = default }

    on_handle-default :
        (m : Shared) (args : List Slot) (s : State)
        → on_handle C T P D default_handle (word m) args s ≡ p2p_ctx_dispatch C T (word m) args s
    unfolding on_handle p2p_ctx_dispatch string_discrete
    on_handle-default Shared.publish args s =
        ap
          (λ (call : (Backend → Io State (Unit {0})) → Io State (Unit {0})).
            (do
              arity C T "publish" args 2
              topic ← view_str C T "publish" args 0
              message ← view_message C T "publish" args 1
              call (λ p. T.p2p_publish p topic message)
              pure {A = Answer C T} (CtxOut.out NativeOut.unit))
              s)
          (sym (fun_ext with_p2p-with_node))
    on_handle-default Shared.receive args s =
        ap
          (λ (describe : String → Io State (P2pReceiveIo Backend)).
            (do
              arity C T "receive" args 1
              topic ← view_str C T "receive" args 0
              io ← describe topic
              spawned C T io)
              s)
          (sym (fun_ext receive_descriptor-for))
    on_handle-default Shared.identity args s =
        ap
          (λ (call : (Backend → Io State (Option String)) → Io State (Option String)).
            (do
              arity C T "identity" args 0
              hex ← call (λ p. T.p2p_identity p)
              pure (identity_out C T hex))
              s)
          (sym (fun_ext with_p2p-with_node))

    handle_of-Node :
        (recv : Slot) (box : NodeBox) (s : State)
        → C.with_extern recv s ≡ (ok (T.box_node box), s)
        → T.downcast_node (T.box_node box) ≡ some box
        → handle_of C T recv s ≡ (ok box, s)
    unfolding handle_of
    handle_of-Node recv box s h k = rw h (rw k refl)

    -- Where the host always answers with the same default node and a box gives back the handle that
    -- was put in it: `p2p.node()` gives a handle of the default node, and each of `publish`,
    -- `receive` and `identity` called on such a handle does what the free function of the same name
    -- does with the same arguments, in its answer, its errors and the state that it leaves.
    pub node_methods_mirror :
        (m : Shared) (recv : Slot) (args : List Slot) (s : State)
        → C.with_extern recv s ≡ (ok (T.box_node default_handle), s)
        → T.downcast_node (T.box_node default_handle) ≡ some default_handle
        → C.ctx_arity "node" [] 0 ≡ ok tt
        → (p2p_ctx_dispatch C T "node" [] s ≡ (ok (node_out C T default), s))
          × (node_ctx_method_dispatch C T P D (word m) recv args s
              ≡ p2p_ctx_dispatch C T (word m) args s)
    unfolding node_ctx_method_dispatch p2p_ctx_dispatch string_discrete
    node_methods_mirror m recv args s h k a = (
      rw a (ap (λ config. (ok (node_out C T config), s)) (fixed s)),
      rw (handle_of-Node recv default_handle s h k) (on_handle-default m args s),
    )
