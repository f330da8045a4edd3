-- ===== src/Net/Node.antt =====
-- `P2pNode` of crates/noeta-para-p2p-net/src/p2p_node.rs: gossip, the durable log behind a
-- `synced_signal`, and the encrypted groups on it. A `Mutex` guards a field within one call, so a
-- call is a function from the node to a result and the node that it leaves. The tasks that drain a
-- stream into a channel are steps: `send` for a gossip message, `sync_delivers` for an event of the
-- log sync (Node/Durable).
pub mod Network
pub mod Durable
pub mod Identity
pub mod Groups
mod Tests
use para_p2p.Common.{
  ℕ, ◌+◌, suc, String, Bool, true, false, List, [], ◌∷◌, ◌++◌, Option, none, some, unwrap_or, ◌==◌,
  if◌then◌else◌, length,
}
use para_p2p.Common.HashMap
use para_p2p.Common.HashMap.{HashMap, string_eq, nat_eq}
use para_p2p.Common.Io.{Io, Result, ok, err, pure, fail, get, modify, ◌>>=◌, ◌>>◌}
use para_p2p.Common.Order.{Ord}
use para_p2p.Net.Crypto.{Crypto, Bytes}
use para_p2p.Net.Group.{EncryptedGroup}
use para_p2p.Net.Node.Network.{
  Operation, SyncEvent, operation_received, session_started, sync_started, sync_finished,
  live_mode_started, session_finished, session_failed, SyncStatus, synced, syncing, offline,
  P2panda,
}

-- The state of one topic on the durable transport.
pub record DurableTopic (N : P2panda) : Type 0 where
  pub handle : N.SyncHandle
  pub seq_num : ℕ
  pub backlink : Option N.Hash

module _ (N : P2panda) where
  open N use {World, GossipHandle, SyncHandle, Header, Hash}

  -- The node without its groups, which Node/Groups puts beside it.
  pub record P2pNode : Type 0 where
    pub world : World
    pub handles : HashMap String GossipHandle
    -- The channel of each subscription, the oldest message first.
    pub subs : HashMap ℕ (List Bytes)
    pub next_sub : ℕ
    pub default_subs : HashMap String ℕ
    pub durable : HashMap String (DurableTopic N)
    pub status : HashMap String SyncStatus

  -- The node as it starts, over a world that may hold the log of an earlier run.
  unfoldable pub start : World → P2pNode
  start world = record {
    world = world;
    handles = HashMap.empty;
    subs = HashMap.empty;
    next_sub = 0;
    default_subs = HashMap.empty;
    durable = HashMap.empty;
    status = HashMap.empty;
  }

  -- A call of p2panda.
  unfoldable pub on_network : {A : Type 0} → Io World A → Io P2pNode A
  on_network m n = ((m n.world).0, record n { world = (m n.world).1 })

  -- `self.handles.lock().unwrap()`, and the same for the other maps
  unfoldable pub handle_for : String → Io P2pNode GossipHandle
  unfolding on_network
  handle_for topic = do
    n ← get
    elim (HashMap.get n.handles topic) [
      | some handle ↦ pure handle
      | none ↦ (do
        handle ← on_network (N.join_gossip topic)
        modify (λ s. record s { handles = HashMap.insert topic handle s.handles })
        pure handle)
    ]

  unfoldable pub publish : String → Bytes → Io P2pNode (Unit {0})
  unfolding handle_for on_network
  publish topic message = do handle ← handle_for topic; on_network (N.publish_gossip handle message)

  -- `next_sub.fetch_add(1)`, with an empty channel for the new subscription
  unfoldable pub new_sub : Io P2pNode ℕ
  new_sub = do
    n ← get
    modify (λ s. record s { next_sub = s.next_sub + 1; subs = HashMap.insert s.next_sub [] s.subs })
    pure n.next_sub

  unfoldable pub subscribe : String → Io P2pNode ℕ
  unfolding handle_for new_sub
  subscribe topic = do handle_for topic; new_sub

  unfoldable pub poll_sub : ℕ → P2pNode → Option Bytes × P2pNode
  poll_sub sub n = elim (HashMap.get n.subs sub) [
    | none ↦ (none, n)
    | some [] ↦ (none, n)
    | some (message ∷ rest) ↦ (some message, record n { subs = HashMap.insert sub rest n.subs })
  ]

  unfoldable pub default_sub : String → Io P2pNode ℕ
  unfolding subscribe
  default_sub topic = do
    n ← get
    elim (HashMap.get n.default_subs topic) [
      | some sub ↦ pure sub
      | none ↦ (do
        sub ← subscribe topic
        modify (λ s. record s { default_subs = HashMap.insert topic sub s.default_subs })
        pure sub)
    ]

  unfoldable pub poll_default : String → Io P2pNode (Option Bytes)
  unfolding default_sub poll_sub
  poll_default topic = do sub ← default_sub topic; λ n. (ok (poll_sub sub n).0, (poll_sub sub n).1)

  -- `tx.send`: the channel of a subscription takes a message.
  unfoldable pub send : ℕ → Bytes → P2pNode → P2pNode
  send sub message n = record n {
    subs = λ id. elim (HashMap.get n.subs id) [
      | none ↦ none
      | some messages ↦ if id == sub then some (messages ++ (message ∷ [])) else some messages
    ];
  }
