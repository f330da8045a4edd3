-- ===== src/Net/Spaces.antt =====
-- `CryptoGroups` of crates/noeta-para-p2p-net/src/p2p_crypto.rs: the manager of p2panda-spaces, with
-- the state that it hands back written to the store.
pub mod Persisted
pub mod Stored
pub mod Forge
mod Tests
use Prim.Native.String.{◌++◌}
use para_p2p.Common.{ℕ, String, Bool, true, false, List, [], ◌∷◌, Option, none, some, any}
use para_p2p.Common.Io.{Io, Result, ok, err, pure, fail, ◌>>=◌, ◌>>◌}
use para_p2p.Common.Order.{Ord}
use para_p2p.Net.Crypto.{Crypto, Bytes, Event}
use para_p2p.Net.Group.{same}

-- `SpacesArgs`, as far as the code tells it apart.
pub data SpacesArgs : Type 0 where
  application control : SpacesArgs

-- What the code calls of p2panda: the manager of the spaces, the tables of its store and the
-- operations of the wire. `World` is the store with the manager's random numbers.
pub record P2pandaSpaces (ActorId : Type 0) : Type 1 where
  pub World : Type 0
  pub SpaceId : Type 0
  pub Header : Type 0
  pub Hash : Type 0
  pub Access : Type 0
  pub AuthGroupState : Type 0
  pub SpacesState : Type 0
  pub SpacesStoreState : Type 0
  pub Space : Type 0
  pub Permit : Type 0
  pub read_access : Access
  pub digest_space : String → SpaceId
  pub digest : Bytes → Hash
  pub encode : Header → Bytes
  pub decode : Bytes → Result Header
  pub hash : Header → Hash
  pub extensions : Header → SpacesArgs
  -- the manager
  pub id : World → ActorId
  pub key_bundle_message : Io World Header
  pub create_space :
      SpaceId → List (ActorId × Access) → Io World (AuthGroupState × SpacesState × List Header)
  pub space : SpaceId → Io World (Option Space)
  pub process :
      Header → Io World (Option AuthGroupState × Option SpacesState × List (Event ActorId))
  -- a space
  pub publish : Space → Bytes → Io World (SpacesState × Header)
  pub add : Space → ActorId → Access → Io World (AuthGroupState × SpacesState × Header × Header)
  pub remove : Space → ActorId → Io World (AuthGroupState × SpacesState × Header × Header)
  pub members : Space → Io World (List (ActorId × Access))
  pub space_id : SpacesState → SpaceId
  pub into_store : SpacesState → SpacesStoreState
  -- the store
  pub begin : Io World Permit
  pub commit : Permit → Io World (Unit {0})
  pub set_groups_state_tx : Hash → AuthGroupState → Io World (Unit {0})
  pub set_space_state_tx : SpaceId → SpacesStoreState → Io World (Unit {0})
  pub insert_operation : Hash → Header → Io World (Unit {0})

-- `b"global-groups-context"`
abbrev pub global_groups_context_id : Bytes
global_groups_context_id =
    103 ∷ 108 ∷ 111 ∷ 98 ∷ 97 ∷ 108 ∷ 45 ∷ 103 ∷ 114 ∷ 111 ∷ 117 ∷ 112 ∷ 115 ∷ 45 ∷ 99 ∷ 111 ∷ 110
    ∷ 116 ∷ 101 ∷ 120 ∷ 116 ∷ []

-- `.map_err(|e| io_error(format!("{what}: {e}")))`
abbrev pub relabelled : {S A : Type 0} → String → Result A × S → Result A × S
relabelled what (ok a, s) = (ok a, s)
relabelled what (err e, s) = (err (what ++ ": " ++ e), s)

abbrev pub reported : {S A : Type 0} → String → Io S A → Io S A
reported what m s = relabelled what (m s)

-- An operation of the wire is its header: it has no body.
pub record SpacesOp {ActorId : Type 0} (M : P2pandaSpaces ActorId) : Type 0 where
  pub header : M.Header

module _ {ActorId : Type 0} (M : P2pandaSpaces ActorId) where
  open M use {World, SpaceId, AuthGroupState, SpacesState, Space, Access}

  abbrev pub from_parts : M.Header → SpacesOp M
  from_parts header = record { header = header }

  unfoldable pub to_wire : SpacesOp M → Bytes
  to_wire op = M.encode op.header

  unfoldable pub is_application : SpacesOp M → Bool
  is_application op = elim (M.extensions op.header) [ application ↦ true | control ↦ false ]

  unfoldable pub from_wire : Bytes → Result (SpacesOp M)
  from_wire bytes = elim (M.decode bytes) [
    | ok header ↦ ok (from_parts header)
    | err e ↦ err ("cannot decode spaces operation: " ++ e)
  ]

  unfoldable pub persist_groups : AuthGroupState → Io World (Unit {0})
  persist_groups groups_y = do
    permit ← M.begin
    M.set_groups_state_tx (M.digest global_groups_context_id) groups_y
    M.commit permit

  unfoldable pub persist_space : SpacesState → Io World (Unit {0})
  persist_space space_y = do
    permit ← M.begin
    M.set_space_state_tx (M.space_id space_y) (M.into_store space_y)
    M.commit permit

  -- Both, as every call that changes the members does.
  unfoldable pub persist : AuthGroupState → SpacesState → Io World (Unit {0})
  unfolding persist_groups persist_space
  persist groups_y space_y = do
    reported "cannot persist auth state" (persist_groups groups_y)
    reported "cannot persist space state" (persist_space space_y)

  unfoldable pub key_bundle_message : Io World (SpacesOp M)
  key_bundle_message = do
    header ← reported "cannot forge key bundle" M.key_bundle_message
    pure (from_parts header)

  abbrev pub all_parts : List M.Header → List (SpacesOp M)
  all_parts [] = []
  all_parts (header ∷ headers) = from_parts header ∷ all_parts headers

  unfoldable pub create_space : SpaceId → List (ActorId × Access) → Io World (List (SpacesOp M))
  unfolding persist
  create_space space_id initial = do
    (groups_y, space_y, messages) ← reported "cannot create space" (M.create_space space_id initial)
    persist groups_y space_y
    pure (all_parts messages)

  -- `.space(space_id)`, which must be there
  unfoldable pub open_space : String → SpaceId → Io World Space
  open_space missing space_id = do
    found ← reported "cannot open space" (M.space space_id)
    elim found [ some space ↦ pure space | none ↦ fail missing ]

  unfoldable pub publish : SpaceId → Bytes → Io World (SpacesOp M)
  unfolding open_space persist_space
  publish space_id plaintext = do
    space ← open_space "cannot publish to unknown space" space_id
    (space_y, message) ← reported "cannot encrypt space state" (M.publish space plaintext)
    reported "cannot persist space state" (persist_space space_y)
    pure (from_parts message)

  unfoldable pub add : SpaceId → ActorId → Access → Io World (List (SpacesOp M))
  unfolding open_space persist
  add space_id member access = do
    space ← open_space "cannot add to unknown space" space_id
    (groups_y, space_y, auth_message, space_message) ←
        reported "cannot add member" (M.add space member access)
    persist groups_y space_y
    pure (from_parts auth_message ∷ from_parts space_message ∷ [])

  unfoldable pub remove : SpaceId → ActorId → Io World (List (SpacesOp M))
  unfolding open_space persist
  remove space_id member = do
    space ← open_space "cannot remove from unknown space" space_id
    (groups_y, space_y, auth_message, space_message) ←
        reported "cannot remove member" (M.remove space member)
    persist groups_y space_y
    pure (from_parts auth_message ∷ from_parts space_message ∷ [])

  -- `if let Some(state) = state { … }`
  abbrev pub if_some : {A : Type 0} → Option A → (A → Io World (Unit {0})) → Io World (Unit {0})
  if_some none f = pure tt
  if_some (some a) f = f a

  unfoldable pub receive : SpacesOp M → Io World (List (Event ActorId))
  unfolding persist_groups persist_space
  receive op = do
    permit ← reported "cannot begin store txn" M.begin
    reported "cannot store received operation" (M.insert_operation (M.hash op.header) op.header)
    reported "cannot commit store txn" (M.commit permit)
    (groups_y, space_y, events) ← reported "cannot process spaces operation" (M.process op.header)
    if_some groups_y (λ y. reported "cannot persist auth state" (persist_groups y))
    if_some space_y (λ y. reported "cannot persist space state" (persist_space y))
    pure events

  unfoldable pub is_member : ⦃o : Ord ActorId⦄ → SpaceId → ActorId → Io World Bool
  is_member space_id actor = do
    found ← reported "cannot open space" (M.space space_id)
    elim found [
      | none ↦ pure false
      | some space ↦ (do
        members ← reported "cannot read space members" (M.members space)
        pure (any (λ m. same m.0 actor) members))
    ]

  -- What the choreography of a group calls.
  abbrev pub crypto_groups : ⦃o : Ord ActorId⦄ → Crypto ActorId
  crypto_groups = record {
    State = World;
    SpaceId = SpaceId;
    SpacesOp = SpacesOp M;
    Access = Access;
    read_access = M.read_access;
    digest = M.digest_space;
    to_wire = to_wire;
    from_wire = from_wire;
    is_application = is_application;
    id = M.id;
    key_bundle_message = key_bundle_message;
    create_space = create_space;
    publish = publish;
    add = add;
    remove = remove;
    receive = receive;
    is_member = is_member;
  }
