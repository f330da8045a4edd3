-- ===== src/Net/Node/Durable/Retry.antt =====
-- A durable publication that fails on its way to the peers, and the next one.
use para_p2p.Common.{◌≡◌, ◌≢◌, ◌∙◌, sym, ap, String, ◌∷◌, some, arith}
use para_p2p.Common.HashMap.{string_eq}
use para_p2p.Common.Io.{ok, err}
use para_p2p.Net.Crypto.{Bytes}
use para_p2p.Net.Node.{DurableTopic, P2pNode}
use para_p2p.Net.Node.Durable.{ensure_durable, create_operation, append_operation, publish_durable}
use para_p2p.Net.Node.Network.{P2panda}
use para_p2p.Net.Node.Network.Recorded.{recorded}

module _ (N : P2panda) (topic : String) (entry : DurableTopic (recorded N)) where
  open N use {Header, Hash}

  -- On a topic that the node has joined there is nothing to ensure.
  publish_durable_joined :
      (m : Bytes) (n : P2pNode (recorded N))
      → n.durable topic ≡ some entry
      → publish_durable (recorded N) topic m n ≡ append_operation (recorded N) topic m entry n
  unfolding publish_durable ensure_durable
  publish_durable_joined m n h = ground arith

  append_operation_failed :
      (m : Bytes) (n s : P2pNode (recorded N)) (e : String)
      → append_operation (recorded N) topic m entry n ≡ (err e, s)
      → (s.durable ≡ n.durable)
        × ((s.world.log ≢ n.world.log)
            → s.world.log ≡ (create_operation N m entry.seq_num entry.backlink).1 ∷ n.world.log)
  unfolding append_operation
  append_operation_failed m n s e h = (ground arith, ground arith)

  append_operation_done :
      (m : Bytes) (n s : P2pNode (recorded N))
      → append_operation (recorded N) topic m entry n ≡ (ok tt, s)
      → s.world.log ≡ (create_operation N m entry.seq_num entry.backlink).1 ∷ n.world.log
  unfolding append_operation
  append_operation_done m n s h = ground arith

  -- A durable publication on a joined topic fails after its operation has reached the log, and the
  -- next one succeeds: the log then holds two operations with one number and one predecessor.
  pub publish_durable_retry :
      (m m' : Bytes) (n s t : P2pNode (recorded N)) (e : String)
      → n.durable topic ≡ some entry
      → publish_durable (recorded N) topic m n ≡ (err e, s)
      → s.world.log ≢ n.world.log
      → publish_durable (recorded N) topic m' s ≡ (ok tt, t)
      → t.world.log
        ≡ (create_operation N m' entry.seq_num entry.backlink).1
          ∷ (create_operation N m entry.seq_num entry.backlink).1
          ∷ n.world.log
  publish_durable_retry m m' n s t e h f l g =
      let here = publish_durable_joined m n h in
      let (d, c) = append_operation_failed m n s e (sym here ∙ f) in
      append_operation_done m' s t (sym (publish_durable_joined m' s (ap (λ x. x topic) d ∙ h)) ∙ g)
      ∙ ap (◌∷◌ (create_operation N m' entry.seq_num entry.backlink).1) (c l)
