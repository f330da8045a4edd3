-- ===== src/Net/Node/Durable/Log.antt =====
-- What the node's log holds after durable publications.
use para_p2p.Common.{
  ℕ, suc, ◌≡◌, refl, String, List, [], ◌∷◌, ◌++◌, Option, none, some, arith, subst, Option-cases,
  inl, inr,
}
use para_p2p.Common.HashMap.{string_eq}
use para_p2p.Common.Io.{Io, ok, Result-cases, ◌>>◌, pure}
use para_p2p.Common.Order.{string_discrete}
use para_p2p.Net.Crypto.{Bytes}
use para_p2p.Net.Node.{DurableTopic, P2pNode, start}
use para_p2p.Net.Node.Durable.{
  in_transaction, join_topic, ensure_durable, create_operation, append_operation, publish_durable,
}
use para_p2p.Net.Node.Network.{Operation, P2panda}
use para_p2p.Net.Node.Network.Recorded.{Tape, recorded}

-- Messages with their topics, the latest first.
abbrev pub History : Type 0
History = List (String × Bytes)

-- How many of the messages are on the topic.
abbrev pub count : String → History → ℕ
count topic [] = 0
count topic ((t, m) ∷ ms) = elim (string_discrete topic t) [
  | yes _ ↦ suc (count topic ms)
  | no _ ↦ count topic ms
]

module _ (N : P2panda) where
  open N use {Header, Hash}

  -- The latest operation of the topic, where each topic has a chain of its own.
  abbrev pub latest : String → History → Option Hash
  latest topic [] = none
  latest topic ((t, m) ∷ ms) = elim (string_discrete topic t) [
    | yes _ ↦ some (N.hash (N.build m (count topic ms) (latest topic ms)))
    | no _ ↦ latest topic ms
  ]

  -- The operations of the messages: each has the number and the predecessor of its topic's chain.
  unfoldable pub chains : History → List (Operation Header)
  chains [] = []
  chains ((t, m) ∷ ms) = (create_operation N m (count t ms) (latest t ms)).1 ∷ chains ms

  abbrev seq_of : Option (DurableTopic (recorded N)) → ℕ
  seq_of none = 0
  seq_of (some entry) = entry.seq_num

  abbrev backlink_of : Option (DurableTopic (recorded N)) → Option Hash
  backlink_of none = none
  backlink_of (some entry) = entry.backlink

  -- The node is where its messages have brought it, on a log that held `old`.
  record Reflects (old : List (Operation Header)) (ms : History) (n : P2pNode (recorded N))
      : Type 0 where
    log : n.world.log ≡ chains ms ++ old
    seq_num : (topic : String) → seq_of (n.durable topic) ≡ count topic ms
    backlink : (topic : String) → backlink_of (n.durable topic) ≡ latest topic ms

  insert_operation-log :
      (op : Operation Header) (s t : Tape N)
      → in_transaction (recorded N) ((recorded N).insert_operation op) s ≡ (ok tt, t)
      → t.log ≡ op ∷ s.log
  unfolding in_transaction
  insert_operation-log op s t h = ground arith

  join_topic-log :
      (topic : String) (s t : Tape N) (handle : N.SyncHandle)
      → join_topic (recorded N) topic s ≡ (ok handle, t)
      → t.log ≡ s.log
  unfolding join_topic
  join_topic-log topic s t handle h = ground arith

  ensure_durable-Reflects :
      (old : List (Operation Header)) (ms : History) (topic : String) (n s : P2pNode (recorded N))
      → Reflects old ms n
      → ensure_durable (recorded N) topic n ≡ (ok tt, s)
      → Reflects old ms s
  unfolding ensure_durable
  ensure_durable-Reflects old ms topic n s i h = elim (Option-cases (n.durable topic)) [
    | inr (entry, e) ↦ record {
      log = ground (arith, i.log);
      seq_num = λ t. ground (arith, i.seq_num t);
      backlink = λ t. ground (arith, i.backlink t);
    }
    | inl e ↦ record {
      log = ground (arith, i.log);
      seq_num = λ t. ground (arith, i.seq_num t);
      backlink = λ t. ground (arith, i.backlink t);
    }
  ]

  append_operation-Reflects :
      (old : List (Operation Header)) (ms : History) (topic : String) (m : Bytes)
      (entry : DurableTopic (recorded N)) (n s : P2pNode (recorded N))
      → Reflects old ms n
      → n.durable topic ≡ some entry
      → append_operation (recorded N) topic m entry n ≡ (ok tt, s)
      → Reflects old ((topic, m) ∷ ms) s
  unfolding append_operation chains
  append_operation-Reflects old ms topic m entry n s i e h = record {
    log = ground (arith, i.log, i.seq_num topic, i.backlink topic);
    seq_num = λ t. ground (arith, i.seq_num t);
    backlink = λ t. ground (arith, i.seq_num t, i.backlink t);
  }

  publish_durable-Reflects :
      (old : List (Operation Header)) (ms : History) (topic : String) (m : Bytes)
      (n s : P2pNode (recorded N))
      → Reflects old ms n
      → publish_durable (recorded N) topic m n ≡ (ok tt, s)
      → Reflects old ((topic, m) ∷ ms) s
  unfolding publish_durable
  publish_durable-Reflects old ms topic m n s i h =
      let t : P2pNode (recorded N) = (ensure_durable (recorded N) topic n).1 in
      elim (Result-cases (ensure_durable (recorded N) topic n).0) [
        | inr (reason, e) ↦ absurd (ground arith)
        | inl (a, e) ↦ elim (Option-cases (t.durable topic)) [
          | inl k ↦ absurd (ground arith)
          | inr (entry, k) ↦
              append_operation-Reflects old ms topic m entry t s
                (ensure_durable-Reflects old ms topic n t i (ground arith)) k (ground arith)
        ]
      ]

  -- Durable publications, one after another, as far as none fails.
  abbrev pub publish_all : List (String × Bytes) → Io (P2pNode (recorded N)) (Unit {0})
  publish_all [] = pure tt
  publish_all ((topic, m) ∷ ms) = publish_durable (recorded N) topic m >> publish_all ms

  abbrev pub newest_first : List (String × Bytes) → History → History
  newest_first [] done = done
  newest_first (m ∷ ms) done = newest_first ms (m ∷ done)

  publish_all-Reflects :
      (old : List (Operation Header)) (ms : List (String × Bytes)) (done : History)
      (n s : P2pNode (recorded N))
      → Reflects old done n
      → publish_all ms n ≡ (ok tt, s)
      → Reflects old (newest_first ms done) s
  publish_all-Reflects old [] done n s i h = subst (Reflects old done) (ground arith) i
  publish_all-Reflects old ((topic, m) ∷ ms) done n s i h =
      let t : P2pNode (recorded N) = (publish_durable (recorded N) topic m n).1 in
      elim (Result-cases (publish_durable (recorded N) topic m n).0) [
        | inr (reason, e) ↦ absurd (ground arith)
        | inl (a, e) ↦
            publish_all-Reflects old ms ((topic, m) ∷ done) t s
              (publish_durable-Reflects old done topic m n t i (ground arith)) (ground arith)
      ]

  -- Messages are published durably on a node that has just started, over a log that may hold what
  -- an earlier run has left, and no call fails. The log gains one operation for each message. The
  -- operations of each topic are numbered from 0 and linked among themselves: the number and the
  -- predecessor depend on no other topic, nor on what the log held.
  pub publish_all-log :
      (ms : List (String × Bytes)) (world : Tape N) (s : P2pNode (recorded N))
      → publish_all ms (start (recorded N) world) ≡ (ok tt, s)
      → s.world.log ≡ chains (newest_first ms []) ++ world.log
  unfolding start chains
  publish_all-log ms world s h =
      (publish_all-Reflects world.log ms [] (start (recorded N) world) s
        (record { log = refl; seq_num = λ t. refl; backlink = λ t. refl }) h).log
