-- ===== src/Net/Node/Groups.antt =====
-- The encrypted groups of `P2pNode` (crates/noeta-para-p2p-net/src/p2p_node.rs), over its durable
-- transport and the membership choreography.
pub mod Polls
mod Tests
use Prim.Native.String.{◌++◌ as ◌⊕◌}
use para_p2p.Common.{ℕ, zero, suc, String, List, [], ◌∷◌, ◌++◌, Option, none, some, unwrap_or}
use para_p2p.Common.HashMap
use para_p2p.Common.HashMap.{HashMap, string_eq, nat_eq}
use para_p2p.Common.Io.{Io, Result, ok, err, pure, fail, get, modify, ◌>>=◌, ◌>>◌}
use para_p2p.Common.Order.{Ord}
use para_p2p.Net.Crypto.{Crypto, Bytes}
use para_p2p.Net.Group
use para_p2p.Net.Group.{EncryptedGroup, GroupOutput}
use para_p2p.Net.Node.{P2pNode, poll_sub}
use para_p2p.Net.Node.Durable.{publish_durable, subscribe_durable}
use para_p2p.Net.Node.Network.{P2panda}

-- The message where no group is open.
abbrev pub not_open : String → String
not_open topic = "no encrypted group open on `" ⊕ topic ⊕ "`"

-- `open_crypto` builds the manager from the files of the node (`Credentials`, the store and
-- `CryptoGroups::new`), `parse_key` is `VerifyingKey::from_str`.
module _ {ActorId : Type 0} ⦃o : Ord ActorId⦄ (N : P2panda) (C : Crypto ActorId)
    (open_crypto : Io N.World C.State) (parse_key : String → Result ActorId) where
  pub record GroupEntry : Type 0 where
    pub group : EncryptedGroup C
    pub inbox : List Bytes

  -- The node with its groups, which share one manager.
  pub record GroupNode : Type 0 where
    pub node : P2pNode N
    pub crypto : Option C.State
    pub groups : HashMap String GroupEntry
    pub group_subs : HashMap ℕ String

  unfoldable pub on_node : {A : Type 0} → Io (P2pNode N) A → Io GroupNode A
  on_node m n = ((m n.node).0, record n { node = (m n.node).1 })

  unfoldable pub on_world : {A : Type 0} → Io N.World A → Io GroupNode A
  on_world m n =
      ((m n.node.world).0, record n { node = record n.node { world = (m n.node.world).1 } })

  unfoldable pub crypto_groups : Io GroupNode C.State
  unfolding on_world
  crypto_groups = do
    n ← get
    elim n.crypto [
      | some existing ↦ pure existing
      | none ↦ (do
        crypto ← on_world open_crypto
        modify (λ m. record m { crypto = some crypto })
        pure crypto)
    ]

  unfoldable pub crypto_group_id : Io GroupNode ActorId
  unfolding crypto_groups
  crypto_group_id = do crypto ← crypto_groups; pure (C.id crypto)

  unfoldable pub parse_members : List String → Io GroupNode (List ActorId)
  parse_members [] = pure []
  parse_members (m ∷ ms) = elim (parse_key m) [
    | ok member ↦ (do members ← parse_members ms; pure (member ∷ members))
    | err e ↦ fail ("invalid peer id `" ⊕ m ⊕ "` in members: " ⊕ e)
  ]

  -- `for op in to_send`
  unfoldable pub send_all : String → List Bytes → Io GroupNode (Unit {0})
  unfolding on_node
  send_all topic [] = pure tt
  send_all topic (op ∷ ops) = do on_node (publish_durable N topic op); send_all topic ops

  -- `EncryptedGroup::open` with the manager of the node.
  unfoldable pub open_encrypted :
      String → List ActorId → Io GroupNode (List Bytes × EncryptedGroup C)
  unfolding crypto_groups
  open_encrypted topic members = do
    crypto ← crypto_groups
    λ n.
        let (r, group) = Group.open_group C topic members crypto in
        (
          elim r [ ok to_send ↦ ok (to_send, group) | err e ↦ err e ],
          record n { crypto = some group.crypto },
        )

  unfoldable pub group_open : String → List String → Io GroupNode ℕ
  unfolding parse_members open_encrypted send_all on_node
  group_open topic members = do
    members ← parse_members members
    opened ← open_encrypted topic members
    sub ← on_node (subscribe_durable N topic)
    send_all topic opened.0
    modify (λ n. record n {
      groups = HashMap.insert topic (record { group = opened.1; inbox = [] }) n.groups;
      group_subs = HashMap.insert sub topic n.group_subs;
    })
    pure sub

  -- A call of the group on a topic: it works on the manager that all groups share.
  unfoldable pub on_entry :
      {A : Type 0}
      → String
      → Io (EncryptedGroup C) A
      → (A → List Bytes → List Bytes)
      → Io GroupNode A
  on_entry topic call extend n = elim (HashMap.get n.groups topic) [
    | none ↦ (err (not_open topic), n)
    | some entry ↦
        let (r, group) =
          call (record entry.group { crypto = unwrap_or n.crypto entry.group.crypto }) in
        let inbox : List Bytes = elim r [ ok out ↦ extend out entry.inbox | err _ ↦ entry.inbox ] in
        (
          r,
          record n {
            crypto = some group.crypto;
            groups = HashMap.insert topic (record { group = group; inbox = inbox }) n.groups;
          },
        )
  ]

  abbrev pub on_group : {A : Type 0} → String → Io (EncryptedGroup C) A → Io GroupNode A
  on_group topic call = on_entry topic call (λ out inbox. inbox)

  unfoldable pub group_publish : String → Bytes → Io GroupNode (Unit {0})
  unfolding on_entry send_all
  group_publish topic plaintext = do
    to_send ← on_group topic (Group.publish C plaintext)
    send_all topic to_send

  unfoldable pub parse_member : String → Io GroupNode ActorId
  parse_member m = elim (parse_key m) [
    | ok member ↦ pure member
    | err e ↦ fail ("invalid peer id `" ⊕ m ⊕ "`: " ⊕ e)
  ]

  unfoldable pub group_add : String → String → Io GroupNode (Unit {0})
  unfolding on_entry send_all parse_member
  group_add topic member = do
    member ← parse_member member
    to_send ← on_group topic (Group.add_member C member)
    send_all topic to_send

  unfoldable pub group_remove : String → String → Io GroupNode (Unit {0})
  unfolding on_entry send_all parse_member
  group_remove topic member = do
    member ← parse_member member
    to_send ← on_group topic (Group.remove_member C member)
    send_all topic to_send

  -- The oldest payload that waits in the inbox.
  unfoldable pub pop_inbox : String → GroupNode → Option Bytes × GroupNode
  pop_inbox topic n = elim (HashMap.get n.groups topic) [
    | none ↦ (none, n)
    | some entry ↦ elim entry.inbox [
      | [] ↦ (none, n)
      | payload ∷ rest ↦ (
        some payload,
        record n { groups = HashMap.insert topic (record entry { inbox = rest }) n.groups },
      )
    ]
  ]

  -- One raw operation: what it decrypts waits in the inbox, what it answers is sent.
  unfoldable pub take_raw : String → Bytes → Io GroupNode (Unit {0})
  unfolding on_entry send_all
  take_raw topic raw = do
    out ← on_entry topic (Group.receive C raw) (λ out inbox. inbox ++ out.decrypted)
    send_all topic out.to_send

  -- The loop, for at most so many rounds: `none` if it has not ended by then.
  unfoldable pub poll_topic : ℕ → ℕ → String → Io GroupNode (Option (Option Bytes))
  poll_topic zero sub topic n = (ok none, n)
  poll_topic (suc fuel) sub topic n =
      let (popped, m) = pop_inbox topic n in
      elim popped [
        | some payload ↦ (ok (some (some payload)), m)
        | none ↦
            let (pulled, node) = poll_sub N sub m.node in
            elim pulled [
              | none ↦ (ok (some none), record m { node = node })
              | some raw ↦
                  (do take_raw topic raw; poll_topic fuel sub topic) (record m { node = node })
            ]
      ]

  unfoldable pub group_poll : ℕ → ℕ → Io GroupNode (Option (Option Bytes))
  unfolding poll_topic
  group_poll fuel sub n = elim (HashMap.get n.group_subs sub) [
    | none ↦ (ok (some none), n)
    | some topic ↦ poll_topic fuel sub topic n
  ]
