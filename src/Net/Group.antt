-- ===== src/Net/Group.antt =====
-- `EncryptedGroup` of crates/noeta-para-p2p-net/src/p2p_crypto.rs: the handshake by which the
-- members of a fixed set come to share an encrypted space.
pub mod Election
pub mod Steps
pub mod Frame
pub mod Pending
pub mod Rights
pub mod Welcome
pub mod Once
use para_p2p.Common.{
  String, Bool, true, false, not, List, [], ◌∷◌, ◌++◌, Option, none, some, map, filter, any, ◌&&◌,
  if◌then◌else◌, lt,
}
use para_p2p.Common.HashSet
use para_p2p.Common.HashSet.{HashSet}
use para_p2p.Common.Io.{Io, Result, ok, err, pure, attempt, get, modify, ◌>>=◌, ◌>>◌}
use para_p2p.Common.Order.{Ord}
use para_p2p.Common.BTree.Sets.{is_eq}
use para_p2p.Net.Crypto.{Crypto, Bytes, Event, application, key_bundle, other}

pub record GroupOutput : Type 0 where
  pub decrypted : List Bytes
  pub to_send : List Bytes

-- `GroupOutput::default()`
abbrev pub silence : GroupOutput
silence = record { decrypted = []; to_send = [] }

module _ {ActorId : Type 0} ⦃o : Ord ActorId⦄ where
  -- `Iterator::min`
  unfoldable pub minimum : List ActorId → Option ActorId
  minimum [] = none
  minimum (m ∷ ms) = elim (minimum ms) [
    | none ↦ some m
    | some least ↦ elim (o.cmp least m) [ lt ↦ some least | _ ↦ some m ]
  ]

  unfoldable pub same : ActorId → ActorId → Bool
  same a b = is_eq (o.cmp a b)

  -- `members.iter().min().copied() == Some(me)`
  unfoldable pub is_creator : List ActorId → ActorId → Bool
  unfolding same minimum
  is_creator members me = elim (minimum members) [ none ↦ false | some least ↦ same least me ]

  -- The plaintexts and the key bundles of a list of events.
  unfoldable pub plaintexts : List (Event ActorId) → List Bytes
  plaintexts [] = []
  plaintexts (application plaintext ∷ events) = plaintext ∷ plaintexts events
  plaintexts (key_bundle author ∷ events) = plaintexts events
  plaintexts (other ∷ events) = plaintexts events

  unfoldable pub learn_bundles : List (Event ActorId) → HashSet ActorId → HashSet ActorId
  learn_bundles [] known = known
  learn_bundles (application plaintext ∷ events) known = learn_bundles events known
  learn_bundles (key_bundle author ∷ events) known =
      learn_bundles events (HashSet.insert author known)
  learn_bundles (other ∷ events) known = learn_bundles events known

module _ {ActorId : Type 0} ⦃o : Ord ActorId⦄ (C : Crypto ActorId) where
  pub record EncryptedGroup : Type 0 where
    pub crypto : C.State
    pub space_id : C.SpaceId
    pub members : List ActorId
    pub me : ActorId
    pub creator : Bool
    pub welcomed : Bool
    -- The members that this node has welcomed.
    pub added : HashSet ActorId
    pub known_bundles : HashSet ActorId
    -- The latest local state that waits for the welcome.
    pub pending : Option Bytes

  -- A call of `self.crypto`.
  unfoldable pub on_crypto : {A : Type 0} → Io C.State A → Io EncryptedGroup A
  on_crypto m g = ((m g.crypto).0, record g { crypto = (m g.crypto).1 })

  -- The group of a node before the space exists.
  abbrev pub opened : C.State → String → List ActorId → EncryptedGroup
  opened crypto topic members = record {
    crypto = crypto;
    space_id = C.digest topic;
    members = members;
    me = C.id crypto;
    creator = is_creator members (C.id crypto);
    welcomed = false;
    added = HashSet.empty;
    known_bundles = HashSet.empty;
    pending = none;
  }

  -- The creator's share of `open`.
  unfoldable pub create : Io EncryptedGroup (List Bytes)
  unfolding on_crypto
  create = do
    g ← get
    ops ← on_crypto (C.create_space g.space_id [])
    modify (λ h. record h { welcomed = true; added = HashSet.insert h.me h.added })
    pure (map C.to_wire ops)

  unfoldable pub announce : Io EncryptedGroup (List Bytes)
  unfolding on_crypto create
  announce = do
    bundle ← on_crypto C.key_bundle_message
    g ← get
    space ← (if g.creator then create else pure [])
    pure (C.to_wire bundle ∷ space)

  -- The group, if it opens, is the state beside the operations to send.
  unfoldable pub open_group : String → List ActorId → C.State → Result (List Bytes) × EncryptedGroup
  unfolding announce
  open_group topic members crypto = announce (opened crypto topic members)

  -- The members to welcome.
  unfoldable pub is_eligible : EncryptedGroup → ActorId → Bool
  unfolding same
  is_eligible g m =
      not (same m g.me) && HashSet.contains g.known_bundles m && not (HashSet.contains g.added m)

  unfoldable pub welcome_each : List ActorId → Io EncryptedGroup (List Bytes)
  unfolding on_crypto
  welcome_each [] = pure []
  welcome_each (m ∷ ms) = do
    g ← get
    add_ops ← on_crypto (C.add g.space_id m C.read_access)
    modify (λ h. record h { added = HashSet.insert m h.added })
    wire ← welcome_each ms
    pure (map C.to_wire add_ops ++ wire)

  unfoldable pub welcome_eligible : Io EncryptedGroup (List Bytes)
  unfolding is_eligible welcome_each
  welcome_eligible = do
    g ← get
    if g.creator then welcome_each (filter (is_eligible g) g.members) else pure []

  unfoldable pub publish : Bytes → Io EncryptedGroup (List Bytes)
  unfolding on_crypto
  publish plaintext = do
    g ← get
    if g.welcomed
        then (do op ← on_crypto (C.publish g.space_id plaintext); pure (C.to_wire op ∷ []))
        else (do modify (λ h. record h { pending = some plaintext }); pure [])

  -- `self.pending.take()` and what follows.
  unfoldable pub flush : Io EncryptedGroup (List Bytes)
  unfolding on_crypto
  flush = do
    g ← get
    modify (λ h. record h { pending = none })
    elim g.pending [
      | none ↦ pure []
      | some plaintext ↦ (do
        op ← on_crypto (C.publish g.space_id plaintext)
        pure (C.to_wire op ∷ []))
    ]

  -- A node that is not welcomed yet looks whether it is now, and sends what it has kept.
  unfoldable pub join : Io EncryptedGroup (List Bytes)
  unfolding on_crypto flush
  join = do
    g ← get
    if g.welcomed then pure [] else (do
      here ← on_crypto (C.is_member g.space_id g.me)
      if here then (do modify (λ h. record h { welcomed = true }); flush) else pure [])

  -- What `receive` does with the events of an operation.
  unfoldable pub take_events : List (Event ActorId) → Io EncryptedGroup GroupOutput
  unfolding plaintexts learn_bundles welcome_eligible join
  take_events events = do
    modify (λ h. record h { known_bundles = learn_bundles events h.known_bundles })
    welcome ← welcome_eligible
    flushed ← join
    pure (record { decrypted = plaintexts events; to_send = welcome ++ flushed })

  unfoldable pub receive : Bytes → Io EncryptedGroup GroupOutput
  unfolding on_crypto take_events
  receive wire = elim (C.from_wire wire) [
    | err e ↦ λ g. (err e, g)
    | ok op ↦ (do
      outcome ← attempt (on_crypto (C.receive op))
      elim outcome [
        | ok events ↦ take_events events
        | err e ↦ (if C.is_application op then pure silence else λ g. (err e, g))
      ])
  ]

  unfoldable pub add_member : ActorId → Io EncryptedGroup (List Bytes)
  unfolding same welcome_eligible
  add_member member = do
    modify (λ h. record h {
      members = if any (same member) h.members then h.members else h.members ++ (member ∷ []);
    })
    welcome_eligible

  unfoldable pub remove_member : ActorId → Io EncryptedGroup (List Bytes)
  unfolding same on_crypto
  remove_member member = do
    modify (λ h. record h {
      members = filter (λ m. not (same m member)) h.members;
      added = HashSet.remove member h.added;
      known_bundles = HashSet.remove member h.known_bundles;
    })
    g ← get
    if g.creator && not (same member g.me)
        then (do ops ← on_crypto (C.remove g.space_id member); pure (map C.to_wire ops))
        else pure []
