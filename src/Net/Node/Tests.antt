-- ===== src/Net/Node/Tests.antt =====
-- Runs of the node over a network in memory, and its theorems at inputs that meet their hypotheses.
use para_p2p.Common.{
  ℕ, ◌≡◌, ◌≢◌, refl, String, Bool, true, false, List, [], ◌∷◌, ◌++◌, Option, none, some,
}
use para_p2p.Common.Io.{ok, err, pure}
use para_p2p.Common.Order.{string_discrete}
use para_p2p.Net.Crypto.{Bytes}
use para_p2p.Net.Node.{P2pNode, DurableTopic, start}
use para_p2p.Net.Node.Durable.{ensure_durable, create_operation, append_operation, publish_durable}
use para_p2p.Net.Node.Durable.Delivery.{polled, arrive_all, polled-arrive_all}
use para_p2p.Net.Node.Durable.Log.{publish_all, publish_all-log, chains}
use para_p2p.Net.Node.Durable.Retry.{publish_durable_retry}
use para_p2p.Net.Node.Network.{Operation, P2panda}
use para_p2p.Net.Node.Network.Recorded.{Tape, recorded}

-- The world says, for each operation that is handed to the peers, whether that fails.
abbrev memory : P2panda
memory = record {
  World = List Bool;
  GossipHandle = Unit {0};
  SyncHandle = Unit {0};
  Header = Bytes × ℕ × Option ℕ;
  Hash = ℕ;
  join_gossip = λ topic. pure tt;
  publish_gossip = λ handle message. pure tt;
  begin = pure tt;
  commit = pure tt;
  associate = λ topic. pure tt;
  insert_operation = λ op. pure tt;
  join_sync = λ topic. pure tt;
  publish_sync = λ handle op w. elim w [
    | [] ↦ (ok tt, [])
    | false ∷ rest ↦ (ok tt, rest)
    | true ∷ rest ↦ (err "offline", rest)
  ];
  subscribe_sync = λ handle. pure tt;
  build = λ message seq_num backlink. (message, seq_num, backlink);
  hash = λ header. header.1;
}

abbrev blank : List Bool → Tape memory
blank world = record { world = world; pending = []; log = [] }

abbrev two_topics : List (String × Bytes)
two_topics = ("a", 1 ∷ []) ∷ ("b", 2 ∷ []) ∷ ("a", []) ∷ []

-- The operation of a message.
abbrev op : Bytes → ℕ → Option ℕ → Operation (Bytes × ℕ × Option ℕ)
op message seq_num backlink = (create_operation memory message seq_num backlink).1

-- Two topics of one node begin at 0 in its one log.
publish_two_topics :
    (publish_all memory two_topics (start (recorded memory) (blank []))).1.world.log
    ≡ op [] 1 (some 0) ∷ op (2 ∷ []) 0 none ∷ op (1 ∷ []) 0 none ∷ []
unfolding publish_durable ensure_durable append_operation start string_discrete create_operation
publish_two_topics = refl

publish_two_topics-ok :
    publish_all memory two_topics (start (recorded memory) (blank []))
    ≡ (ok tt, (publish_all memory two_topics (start (recorded memory) (blank []))).1)
unfolding publish_durable ensure_durable append_operation start string_discrete create_operation
publish_two_topics-ok = refl

publish_all-log_example :
    (publish_all memory two_topics (start (recorded memory) (blank []))).1.world.log
    ≡ chains memory (("a", []) ∷ ("b", 2 ∷ []) ∷ ("a", 1 ∷ []) ∷ []) ++ []
publish_all-log_example =
    publish_all-log memory two_topics (blank [])
      (publish_all memory two_topics (start (recorded memory) (blank []))).1 publish_two_topics-ok

abbrev fresh : DurableTopic (recorded memory)
fresh = record { handle = tt; seq_num = 0; backlink = none }

abbrev joined : List Bool → P2pNode (recorded memory)
joined world = record {
  world = blank world;
  handles = λ t. none;
  subs = λ s. some [];
  next_sub = 1;
  default_subs = λ t. none;
  durable = λ t. some fresh;
  status = λ t. none;
}

abbrev offline_once : P2pNode (recorded memory)
offline_once = joined (true ∷ [])

abbrev publishing : Bytes → P2pNode (recorded memory) → P2pNode (recorded memory)
publishing m n = (publish_durable (recorded memory) "a" m n).1

publish_once :
    publish_durable (recorded memory) "a" (1 ∷ []) offline_once
    ≡ (err "offline", publishing (1 ∷ []) offline_once)
unfolding publish_durable ensure_durable append_operation string_discrete create_operation
publish_once = refl

publish_logged : (publishing (1 ∷ []) offline_once).world.log ≢ []
unfolding publish_durable ensure_durable append_operation string_discrete create_operation
publish_logged e = cc e

publish_again :
    publish_durable (recorded memory) "a" (2 ∷ []) (publishing (1 ∷ []) offline_once)
    ≡ (ok tt, publishing (2 ∷ []) (publishing (1 ∷ []) offline_once))
unfolding publish_durable ensure_durable append_operation string_discrete create_operation
publish_again = refl

publish_durable_retry_example :
    (publishing (2 ∷ []) (publishing (1 ∷ []) offline_once)).world.log
    ≡ op (2 ∷ []) 0 none ∷ op (1 ∷ []) 0 none ∷ []
publish_durable_retry_example =
    publish_durable_retry memory "a" fresh (1 ∷ []) (2 ∷ []) offline_once
      (publishing (1 ∷ []) offline_once) (publishing (2 ∷ []) (publishing (1 ∷ []) offline_once))
      "offline" refl publish_once publish_logged publish_again

abbrev listening : P2pNode memory
listening = record {
  world = [];
  handles = λ t. none;
  subs = λ s. some [];
  next_sub = 1;
  default_subs = λ t. none;
  durable = λ t. none;
  status = λ t. none;
}

polled-arrive_all_example :
    polled memory 0 "a" 3
      (arrive_all memory 0 "a" ((1 ∷ [], 0, none) ∷ ([], 1, some 0) ∷ []) listening)
    ≡ some (1 ∷ []) ∷ some [] ∷ none ∷ []
polled-arrive_all_example =
    polled-arrive_all memory 0 "a" ((1 ∷ [], 0, none) ∷ ([], 1, some 0) ∷ []) listening refl
