-- ===== src/Para/Ctx.antt =====
-- What crates/noeta-para-p2p reaches through the context of a native call: the host's `NativeCtx`
-- with the reactive graph behind it, the nodes of the provider registry, and the CRDT values behind
-- an extern box. Each is an interface; `State` is all that a call can change.
use para_p2p.Common.{ℕ, String, Bool, List, Option, none, some}
use para_p2p.Common.Io.{Io, Result}
use para_p2p.Net.Crypto.{Bytes}
use para_p2p.Net.Node.Network.{SyncStatus}
use para_p2p.Para.Native.{NativeValue}
use para_p2p.Para.Provider.{NodeConfig}

-- The box of a synced signal: its node in the graph, the cell of its value, its subscription.
pub record SyncedSignalBox (NodeId Retained : Type 0) : Type 0 where
  pub node : NodeId
  pub cell : Retained
  pub subscription : ℕ
  pub topic : String
  pub members : List String
  pub p2p_node : Option NodeConfig

pub record NativeCtx : Type 1 where
  pub State : Type 0
  pub Slot : Type 0
  pub Retained : Type 0
  pub NodeId : Type 0
  pub Extern : Type 0
  pub F64 : Type 0
  pub F32 : Type 0
  -- `Ok` with what the box of a slot holds.
  pub with_extern : Slot → Io State Extern
  pub box_signal : SyncedSignalBox NodeId Retained → Extern
  pub downcast_signal : Extern → Option (SyncedSignalBox NodeId Retained)
  pub view : Slot → Io State (NativeValue F64 F32 Extern)
  pub intern_extern : Extern → Io State Slot
  pub intern_bytes : Bytes → Io State Slot
  pub bytes_of : Slot → Io State (Option Bytes)
  pub call_method : Slot → String → List Slot → Io State (Option Slot)
  pub values_equal : Slot → Slot → Io State Bool
  pub free : Slot → State → State
  pub retain : Slot → Io State Retained
  pub retained_get : Retained → Io State Slot
  pub retained_set : Retained → Slot → Io State (Unit {0})
  -- `ReactiveSource`
  pub create_source : Retained → State → NodeId × State
  pub read_source : NodeId → State → Retained × State
  pub wake : NodeId → Io State (Unit {0})
  -- `Display` of a number, and the checks and messages that the native functions share.
  pub display_usize : ℕ → String
  pub ctx_arity : String → List Slot → ℕ → Result (Unit {0})
  pub type_error : String → String → String
  pub no_function_error : String → String → String
  pub no_method_error : String → String → String

-- `with_node`: a call of the node that a name reaches. `default_node` is `host_node_config`.
pub record Nodes (State : Type 0) : Type 0 where
  pub default_node : State → Option NodeConfig
  pub subscribe_durable : Option NodeConfig → String → Io State ℕ
  pub publish_durable : Option NodeConfig → String → Bytes → Io State (Unit {0})
  pub poll_sub : Option NodeConfig → ℕ → Io State (Option Bytes)
  pub sync_status : Option NodeConfig → String → Io State SyncStatus
  pub status_word : SyncStatus → String
  pub group_open : Option NodeConfig → String → List String → Io State ℕ
  pub group_publish : Option NodeConfig → String → Bytes → Io State (Unit {0})
  pub group_poll : Option NodeConfig → ℕ → Io State (Option Bytes)
  pub group_add : Option NodeConfig → String → String → Io State (Unit {0})
  pub group_remove : Option NodeConfig → String → String → Io State (Unit {0})

-- `merge_dyn`, `to_bytes_dyn` and `from_bytes_like` of crdt.rs, which Para/Crdt/Dyn models.
pub record DynCrdt (Extern : Type 0) : Type 0 where
  pub merge_dyn : Extern → Extern → Option Extern
  pub to_bytes_dyn : Extern → Option Bytes
  pub from_bytes_like : Extern → Bytes → Option Extern

-- `.map(|d| Box::new(d))`
abbrev pub boxed_as : {A B : Type 0} → (A → B) → Option A → Option B
boxed_as f none = none
boxed_as f (some a) = some (f a)
