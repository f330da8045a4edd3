-- ===== src/Net/Node/Groups/Polls.antt =====
-- A poll of a group ends.
use para_p2p.Common.{
  ℕ, zero, suc, ◌<◌, String, List, [], ◌∷◌, ◌++◌, Option, none, some, ◌≡◌, ◌≢◌, refl, ap, arith,
  length, Option-cases, inl, inr,
}
use para_p2p.Common.HashMap
use para_p2p.Common.Io.{Io, Result, ok, Result-cases}
use para_p2p.Common.Io.Keeps.{Keeps, bind-Keeps, then-Keeps}
use para_p2p.Common.Order.{Ord}
use para_p2p.Net.Crypto.{Crypto, Bytes}
use para_p2p.Net.Group
use para_p2p.Net.Group.{EncryptedGroup}
use para_p2p.Net.Node.{DurableTopic, P2pNode, poll_sub, on_network}
use para_p2p.Net.Node.Durable.{publish_durable, ensure_durable, append_operation}
use para_p2p.Net.Node.Network.{P2panda}
use para_p2p.Net.Node.Groups.{
  GroupNode, on_node, send_all, on_entry, pop_inbox, take_raw, poll_topic, group_poll,
}

module _ (N : P2panda) (q : ℕ → Option (List Bytes)) where
  -- The channels of the node are these.
  abbrev HasSubs : P2pNode N → Type 0
  HasSubs n = n.subs ≡ q

  ensure_durable-HasSubs : (topic : String) → Keeps HasSubs (ensure_durable N topic)
  unfolding ensure_durable on_network
  ensure_durable-HasSubs topic n h = ground arith

  append_operation-HasSubs :
      (topic : String) (m : Bytes) (entry : DurableTopic N)
      → Keeps HasSubs (append_operation N topic m entry)
  unfolding append_operation on_network
  append_operation-HasSubs topic m entry n h = ground arith

  publish_durable-HasSubs : (topic : String) (m : Bytes) → Keeps HasSubs (publish_durable N topic m)
  unfolding publish_durable
  publish_durable-HasSubs topic m n h =
      let s = (ensure_durable N topic n).1 in
      let i = ensure_durable-HasSubs topic n h in
      elim (Option-cases (s.durable topic)) [
        | inl e ↦ ground arith
        | inr (entry, e) ↦ let j = append_operation-HasSubs topic m entry s i in ground arith
      ]

module _ (N : P2panda) where
  -- How much waits in a channel.
  abbrev pub queued : ℕ → P2pNode N → ℕ
  queued sub n = elim (HashMap.get n.subs sub) [ none ↦ 0 | some messages ↦ length messages ]

  poll_sub-queued :
      (sub : ℕ) (n m : P2pNode N) (raw : Bytes)
      → (poll_sub N sub n).0 ≡ some raw
      → m.subs ≡ (poll_sub N sub n).1.subs
      → queued sub n ≡ suc (queued sub m)
  unfolding poll_sub
  poll_sub-queued sub n m raw h e = let f = ap (λ g. g sub) e in ground arith

module _ {ActorId : Type 0} ⦃o : Ord ActorId⦄ (N : P2panda) (C : Crypto ActorId)
    (open_crypto : Io N.World C.State) (parse_key : String → Result ActorId) where
  abbrev Node : Type 0
  Node = GroupNode N C open_crypto parse_key

  module _ (q : ℕ → Option (List Bytes)) where
    abbrev Waits : Node → Type 0
    Waits n = n.node.subs ≡ q

    send_all-Waits :
        (topic : String) (ops : List Bytes)
        → Keeps Waits (send_all N C open_crypto parse_key topic ops)
    unfolding send_all on_node
    send_all-Waits topic [] n h = h
    send_all-Waits topic (op ∷ ops) n h =
        then-Keeps Waits (on_node N C open_crypto parse_key (publish_durable N topic op))
          (send_all N C open_crypto parse_key topic ops)
          (λ m i. publish_durable-HasSubs N q topic op m.node i) (send_all-Waits topic ops) n h

    on_entry-Waits :
        {A : Type 0} (topic : String) (call : Io (EncryptedGroup C) A)
        (extend : A → List Bytes → List Bytes)
        → Keeps Waits (on_entry N C open_crypto parse_key topic call extend)
    unfolding on_entry
    on_entry-Waits topic call extend n h = ground arith

    take_raw-Waits :
        (topic : String) (raw : Bytes) → Keeps Waits (take_raw N C open_crypto parse_key topic raw)
    unfolding take_raw
    take_raw-Waits topic raw n h =
        bind-Keeps Waits
          (on_entry N C open_crypto parse_key topic (Group.receive C raw)
            (λ out inbox. inbox ++ out.decrypted))
          (λ out. send_all N C open_crypto parse_key topic out.to_send)
          (on_entry-Waits topic (Group.receive C raw) (λ out inbox. inbox ++ out.decrypted))
          (λ out. send_all-Waits topic out.to_send) n h

    pop_inbox-Waits :
        (topic : String) (n : Node)
        → Waits n
        → Waits (pop_inbox N C open_crypto parse_key topic n).1
    unfolding pop_inbox
    pop_inbox-Waits topic n h = ground arith

  -- A round that pulls a message: what it does, and the rounds after it.
  poll_topic-round :
      (fuel sub : ℕ) (topic : String) (n : Node) (raw : Bytes)
      → (pop_inbox N C open_crypto parse_key topic n).0 ≡ none
      → (poll_sub N sub (pop_inbox N C open_crypto parse_key topic n).1.node).0 ≡ some raw
      → ((m : Node)
          → m.node.subs
            ≡ (poll_sub N sub (pop_inbox N C open_crypto parse_key topic n).1.node).1.subs
          → (poll_topic N C open_crypto parse_key fuel sub topic m).0 ≢ ok none)
      → (poll_topic N C open_crypto parse_key (suc fuel) sub topic n).0 ≢ ok none
  unfolding poll_topic
  poll_topic-round fuel sub topic n raw p r next g =
      let m = (pop_inbox N C open_crypto parse_key topic n).1 in
      let k : Node = record m { node = (poll_sub N sub m.node).1 } in
      let t = take_raw-Waits (poll_sub N sub m.node).1.subs topic raw k refl in
      elim (Result-cases (take_raw N C open_crypto parse_key topic raw k).0) [
        | inl (a, e) ↦ next (take_raw N C open_crypto parse_key topic raw k).1 t (ground arith)
        | inr (a, e) ↦ absurd (ground arith)
      ]

  poll_topic-ends :
      (fuel sub : ℕ) (topic : String) (n : Node)
      → queued N sub n.node < fuel
      → (poll_topic N C open_crypto parse_key fuel sub topic n).0 ≢ ok none
  unfolding poll_topic
  poll_topic-ends zero sub topic n h g = absurd (omega arith)
  poll_topic-ends (suc fuel) sub topic n h g =
      let m = (pop_inbox N C open_crypto parse_key topic n).1 in
      let i = ap (λ f. f sub) (pop_inbox-Waits n.node.subs topic n refl) in
      let j : queued N sub m.node ≡ queued N sub n.node = ground arith in
      elim (Option-cases (pop_inbox N C open_crypto parse_key topic n).0) [
        | inr (payload, e) ↦ absurd (ground arith)
        | inl e ↦ elim (Option-cases (poll_sub N sub m.node).0) [
          | inl f ↦ absurd (ground arith)
          | inr (raw, f) ↦
              poll_topic-round fuel sub topic n raw e f
                (λ k s.
                  poll_topic-ends fuel sub topic k
                    (omega (arith, poll_sub-queued N sub m.node k.node raw f s, j)))
                g
        ]
      ]

  -- A poll of an encrypted group ends: with fuel for more rounds than messages wait in its channel,
  -- the loop never runs out of fuel, whatever the group does with the messages and whether or not
  -- its answers can be sent.
  pub group_poll-ends :
      (fuel sub : ℕ) (n : Node)
      → queued N sub n.node < fuel
      → (group_poll N C open_crypto parse_key fuel sub n).0 ≢ ok none
  unfolding group_poll
  group_poll-ends fuel sub n h g = elim (Option-cases (HashMap.get n.group_subs sub)) [
    | inl e ↦ absurd (ground arith)
    | inr (topic, e) ↦ poll_topic-ends fuel sub topic n h (ground arith)
  ]
