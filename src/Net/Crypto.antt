-- ===== src/Net/Crypto.antt =====
-- What the membership choreography calls of `CryptoGroups`, with the operations of the wire
-- (`SpacesOp`) and the events, in crates/noeta-para-p2p-net/src/p2p_crypto.rs. Every call may change
-- the stores behind the manager, and may fail.
pub mod Traced
use para_p2p.Common.{ℕ, String, Bool, List, Option}
use para_p2p.Common.Io.{Io, Result}

-- `Vec<u8>`
abbrev pub Bytes : Type 0
Bytes = List ℕ

-- `Event`, as far as it is told apart.
pub data Event (ActorId : Type 0) : Type 0 where
  application : Bytes → Event ActorId
  key_bundle : ActorId → Event ActorId
  other : Event ActorId

pub record Crypto (ActorId : Type 0) : Type 1 where
  pub State : Type 0
  pub SpaceId : Type 0
  pub SpacesOp : Type 0
  pub Access : Type 0
  -- `Access::read()`
  pub read_access : Access
  -- `SpaceId::digest(topic.as_bytes())`
  pub digest : String → SpaceId
  pub to_wire : SpacesOp → Bytes
  pub from_wire : Bytes → Result SpacesOp
  pub is_application : SpacesOp → Bool
  pub id : State → ActorId
  pub key_bundle_message : Io State SpacesOp
  pub create_space : SpaceId → List (ActorId × Access) → Io State (List SpacesOp)
  pub publish : SpaceId → Bytes → Io State SpacesOp
  pub add : SpaceId → ActorId → Access → Io State (List SpacesOp)
  pub remove : SpaceId → ActorId → Io State (List SpacesOp)
  pub receive : SpacesOp → Io State (List (Event ActorId))
  pub is_member : SpaceId → ActorId → Io State Bool
