-- ===== src/Net/Node/Network/Recorded.antt =====
-- Any network with a record of the operations that its store has committed, the latest first, so
-- that a statement can speak of the log.
use para_p2p.Common.{List, [], ◌∷◌, ◌++◌}
use para_p2p.Common.Io.{Result, ok, err, Io}
use para_p2p.Net.Node.Network.{Operation, P2panda}

module _ (N : P2panda) where
  open N use {World, Header}

  pub record Tape : Type 0 where
    pub world : World
    -- The operations of the open transaction.
    pub pending : List (Operation Header)
    pub log : List (Operation Header)

  -- A call that leaves the record as it is.
  abbrev quiet : {A : Type 0} → Io World A → Io Tape A
  quiet m s = ((m s.world).0, record s { world = (m s.world).1 })

  abbrev when_done : {A : Type 0} → (Tape → Tape) → Result A × Tape → Result A × Tape
  when_done f (ok a, s) = (ok a, f s)
  when_done f (err e, s) = (err e, s)

  abbrev pub recorded : P2panda
  recorded = record {
    World = Tape;
    GossipHandle = N.GossipHandle;
    SyncHandle = N.SyncHandle;
    Header = N.Header;
    Hash = N.Hash;
    join_gossip = λ topic. quiet (N.join_gossip topic);
    publish_gossip = λ handle message. quiet (N.publish_gossip handle message);
    begin = λ s. when_done (λ t. record t { pending = [] }) (quiet N.begin s);
    commit = λ s.
        when_done (λ t. record t { pending = []; log = t.pending ++ t.log }) (quiet N.commit s);
    associate = λ topic. quiet (N.associate topic);
    insert_operation = λ op s.
        when_done (λ t. record t { pending = op ∷ t.pending }) (quiet (N.insert_operation op) s);
    join_sync = λ topic. quiet (N.join_sync topic);
    publish_sync = λ handle op. quiet (N.publish_sync handle op);
    subscribe_sync = λ handle. quiet (N.subscribe_sync handle);
    build = N.build;
    hash = N.hash;
  }
