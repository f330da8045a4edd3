-- ===== src/Para/Dispatch/Tests.antt =====
-- A host without networking, whose slots are texts, and a broker that keeps what is published.
use para_p2p.Common.{String, List, [], ◌∷◌, none, some, ◌≡◌, refl}
use para_p2p.Common.Io.{ok, pure, fail}
use para_p2p.Common.Order.{string_discrete}
use para_p2p.Net.Crypto.{Bytes}
use para_p2p.Net.Node.Network.{synced}
use para_p2p.Para.Ctx.{NativeCtx, Nodes, DynCrdt}
use para_p2p.Para.Dispatch.{
  NodeBox, Peers, CtxOut, node_out, p2p_ctx_dispatch, node_ctx_method_dispatch, with_p2p, with_node,
  view_str, view_message,
}
use para_p2p.Para.Dispatch.Mirror.{Shared, node_methods_mirror}
use para_p2p.Para.Native.{NativeValue, NativeOut}

-- What was published, the latest first.
abbrev Sent : Type 0
Sent = List (String × Bytes)

abbrev default_box : NodeBox
default_box = record { config = none }

abbrev host : NativeCtx
host = record {
  State = Sent;
  Slot = String;
  Retained = Unit {0};
  NodeId = Unit {0};
  Extern = NodeBox;
  F64 = Unit {0};
  F32 = Unit {0};
  with_extern = λ x. pure default_box;
  box_signal = λ b. default_box;
  downcast_signal = λ e. none;
  view = λ x. pure (NativeValue.str x);
  intern_extern = λ e. pure "box";
  intern_bytes = λ b. pure "bytes";
  bytes_of = λ x. pure none;
  call_method = λ x m xs. pure none;
  values_equal = λ x y. fail "no values";
  free = λ x s. s;
  retain = λ x. pure tt;
  retained_get = λ c. pure "cell";
  retained_set = λ c x. pure tt;
  create_source = λ c s. (tt, s);
  read_source = λ n s. (tt, s);
  wake = λ n. pure tt;
  display_usize = λ n. "2";
  ctx_arity = λ m xs n. ok tt;
  type_error = λ m t. t;
  no_function_error = λ m f. f;
  no_method_error = λ t m. m;
}

abbrev peers : Peers host
peers = record {
  Backend = Unit {0};
  backend_for = λ config. pure tt;
  default_node = λ s. none;
  p2p_publish = λ p topic message s. (ok tt, (topic, message) ∷ s);
  p2p_identity = λ p. pure none;
  spawn_io = λ io s. ("future", s);
  box_node = λ b. b;
  downcast_node = λ b. some b;
  file_system = record { canonicalize = λ p. none; absolute = λ p. none };
  path_of = λ s. [];
  into_bytes = λ s. 104 ∷ 105 ∷ [];
}

abbrev no_nodes : Nodes Sent
no_nodes = record {
  default_node = λ s. none;
  subscribe_durable = λ n t. pure 0;
  publish_durable = λ n t b. pure tt;
  poll_sub = λ n i. pure none;
  sync_status = λ n t. pure synced;
  status_word = λ s. "synced";
  group_open = λ n t m. pure 0;
  group_publish = λ n t b. fail "no groups";
  group_poll = λ n i. fail "no groups";
  group_add = λ n t m. fail "no groups";
  group_remove = λ n t m. fail "no groups";
}

abbrev no_crdts : DynCrdt NodeBox
no_crdts = record {
  merge_dyn = λ a b. none;
  to_bytes_dyn = λ a. none;
  from_bytes_like = λ a b. none;
}

published :
    p2p_ctx_dispatch host peers "publish" ("news" ∷ "hi" ∷ []) []
    ≡ (ok (CtxOut.out NativeOut.unit), ("news", 104 ∷ 105 ∷ []) ∷ [])
unfolding p2p_ctx_dispatch with_p2p with_node view_str view_message string_discrete
published = refl

node_methods_mirror_example :
    (p2p_ctx_dispatch host peers "node" [] [] ≡ (ok (node_out host peers none), []))
    × (node_ctx_method_dispatch host peers no_nodes no_crdts "publish" "self"
          ("news" ∷ "hi" ∷ [])
          []
        ≡ p2p_ctx_dispatch host peers "publish" ("news" ∷ "hi" ∷ []) [])
node_methods_mirror_example =
    node_methods_mirror peers none (λ s. refl) no_nodes no_crdts Shared.publish "self"
      ("news" ∷ "hi" ∷ []) [] refl refl refl
