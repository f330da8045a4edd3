-- ===== src/Net/Node/Durable.antt =====
-- The durable transport of `P2pNode`: an append-only log of signed operations, which the log sync
-- carries to the peers (crates/noeta-para-p2p-net/src/p2p_node.rs).
pub mod Log
pub mod Retry
pub mod Delivery
use para_p2p.Common.{
  ℕ, ◌+◌, suc, String, Bool, true, false, List, [], ◌∷◌, ◌++◌, Option, none, some, unwrap_or, ◌==◌,
  if◌then◌else◌, length,
}
use para_p2p.Common.HashMap
use para_p2p.Common.HashMap.{HashMap, string_eq, nat_eq}
use para_p2p.Common.Io.{Io, Result, ok, err, pure, fail, get, modify, ◌>>=◌, ◌>>◌}
use para_p2p.Common.Order.{Ord}
use para_p2p.Net.Crypto.{Crypto, Bytes}
use para_p2p.Net.Group.{EncryptedGroup}
use para_p2p.Net.Node.{DurableTopic, P2pNode, on_network, new_sub, send}
use para_p2p.Net.Node.Network.{
  Operation, SyncEvent, operation_received, session_started, sync_started, sync_finished,
  live_mode_started, session_finished, session_failed, SyncStatus, synced, syncing, offline,
  P2panda,
}

module _ (N : P2panda) where
  open N use {World, GossipHandle, SyncHandle, Header, Hash}

  -- `store.begin`, the call, `store.commit`
  unfoldable pub in_transaction : Io World (Unit {0}) → Io World (Unit {0})
  in_transaction call = do N.begin; call; N.commit

  unfoldable pub join_topic : String → Io World SyncHandle
  unfolding in_transaction
  join_topic topic = do in_transaction (N.associate topic); N.join_sync topic

  unfoldable pub ensure_durable : String → Io (P2pNode N) (Unit {0})
  unfolding on_network join_topic
  ensure_durable topic = do
    n ← get
    elim (HashMap.get n.durable topic) [
      | some entry ↦ pure tt
      | none ↦ (do
        handle ← on_network N (join_topic topic)
        modify (λ s. record s {
          durable =
              HashMap.insert topic (record { handle = handle; seq_num = 0; backlink = none })
                s.durable;
          status = HashMap.insert topic (unwrap_or (HashMap.get s.status topic) offline) s.status;
        }))
    ]

  -- An empty payload travels as no body.
  unfoldable pub create_operation : Bytes → ℕ → Option Hash → Hash × Operation Header
  create_operation body seq_num backlink =
      let header : Header = N.build body seq_num backlink in
      (
        N.hash header,
        record { header = header; body = if length body == 0 then none else some body },
      )

  -- The rest of `publish_durable`, once the topic has its entry.
  unfoldable pub append_operation : String → Bytes → DurableTopic N → Io (P2pNode N) (Unit {0})
  unfolding on_network in_transaction create_operation
  append_operation topic message entry = do
    let (hash, operation) = create_operation message entry.seq_num entry.backlink
    on_network N (in_transaction (N.insert_operation operation))
    on_network N (N.publish_sync entry.handle operation)
    modify (λ s. record s {
      durable =
          HashMap.insert topic (record entry { seq_num = entry.seq_num + 1; backlink = some hash })
            s.durable;
    })

  -- The message of `expect("ensured above")`; no call of the node meets it.
  abbrev pub not_ensured : String
  not_ensured = "ensured above"

  unfoldable pub publish_durable : String → Bytes → Io (P2pNode N) (Unit {0})
  publish_durable topic message = do
    ensure_durable topic
    n ← get
    elim (HashMap.get n.durable topic) [
      | some entry ↦ append_operation topic message entry
      | none ↦ fail not_ensured
    ]

  unfoldable pub subscribe_durable : String → Io (P2pNode N) ℕ
  unfolding ensure_durable on_network new_sub
  subscribe_durable topic = do
    ensure_durable topic
    n ← get
    elim (HashMap.get n.durable topic) [
      | some entry ↦ (do on_network N (N.subscribe_sync entry.handle); new_sub N)
      | none ↦ fail not_ensured
    ]

  unfoldable pub sync_status : P2pNode N → String → SyncStatus
  sync_status n topic = unwrap_or (HashMap.get n.status topic) offline

  unfoldable pub set_status : String → SyncStatus → P2pNode N → P2pNode N
  set_status topic next n = record n { status = HashMap.insert topic next n.status }

  -- What the drain task of a durable subscription does with an event.
  unfoldable pub sync_delivers : ℕ → String → SyncEvent → P2pNode N → P2pNode N
  unfolding send set_status
  sync_delivers sub topic (operation_received body) = send N sub (unwrap_or body [])
  sync_delivers sub topic session_started = set_status topic syncing
  sync_delivers sub topic sync_started = set_status topic syncing
  sync_delivers sub topic sync_finished = set_status topic synced
  sync_delivers sub topic live_mode_started = set_status topic synced
  sync_delivers sub topic session_finished = set_status topic offline
  sync_delivers sub topic session_failed = set_status topic offline
