-- ===== src/Net/Node/Network.antt =====
-- What the node calls of p2panda: the gossip overlay, the log store and the log sync, in
-- crates/noeta-para-p2p-net/src/p2p_node.rs. Every call may change the world behind it, and may fail.
pub mod Recorded
use para_p2p.Common.{ℕ, String, List, ◌∷◌, Option}
use para_p2p.Common.Io.{Io}
use para_p2p.Net.Crypto.{Bytes}

-- `Operation::from_parts`
pub record Operation (Header : Type 0) : Type 0 where
  pub header : Header
  pub body : Option Bytes

-- `TopicLogSyncEvent`
pub data SyncEvent : Type 0 where
  operation_received : Option Bytes → SyncEvent
  session_started sync_started sync_finished : SyncEvent
  live_mode_started session_finished session_failed : SyncEvent

-- `SyncStatus`
pub data SyncStatus : Type 0 where
  synced syncing offline : SyncStatus

pub record P2panda : Type 1 where
  pub World : Type 0
  pub GossipHandle : Type 0
  pub SyncHandle : Type 0
  pub Header : Type 0
  pub Hash : Type 0
  -- `Gossip::stream`, `GossipHandle::publish`
  pub join_gossip : String → Io World GossipHandle
  pub publish_gossip : GossipHandle → Bytes → Io World (Unit {0})
  -- `SqliteStore`: the calls on the log of this author, under `LOG_ID`
  pub begin : Io World (Unit {0})
  pub commit : Io World (Unit {0})
  pub associate : String → Io World (Unit {0})
  pub insert_operation : Operation Header → Io World (Unit {0})
  -- `LogSync::stream`, `SyncHandle::publish`, `SyncHandle::subscribe`
  pub join_sync : String → Io World SyncHandle
  pub publish_sync : SyncHandle → Operation Header → Io World (Unit {0})
  pub subscribe_sync : SyncHandle → Io World (Unit {0})
  -- `Header::builder().body(…).seq_num(…).backlink(…).build(signing_key, ())`
  pub build : Bytes → ℕ → Option Hash → Header
  pub hash : Header → Hash
