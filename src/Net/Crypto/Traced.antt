-- ===== src/Net/Crypto/Traced.antt =====
-- Any `CryptoGroups` with a record of the calls by which it manages a space, each with whether it
-- succeeded, so that a statement can say which calls a group makes.
use para_p2p.Common.{Bool, true, false, List, ◌∷◌}
use para_p2p.Common.Io.{Result, ok, err, Io}
use para_p2p.Net.Crypto.{Crypto}

pub data Call (ActorId : Type 0) : Type 0 where
  created : Call ActorId
  added : ActorId → Call ActorId
  removed : ActorId → Call ActorId

abbrev pub succeeded : {A : Type 0} → Result A → Bool
succeeded (ok a) = true
succeeded (err e) = false

module _ {ActorId : Type 0} (C : Crypto ActorId) where
  open C use {State}

  -- A call that leaves the record as it is.
  abbrev quiet : {A : Type 0} → Io State A → Io (State × List (Call ActorId × Bool)) A
  quiet m s = ((m s.0).0, ((m s.0).1, s.1))

  abbrev noted :
      {A : Type 0} → Call ActorId → Io State A → Io (State × List (Call ActorId × Bool)) A
  noted call m s = ((m s.0).0, ((m s.0).1, (call, succeeded (m s.0).0) ∷ s.1))

  -- The calls, the latest first.
  abbrev pub traced : Crypto ActorId
  traced = record {
    State = State × List (Call ActorId × Bool);
    SpaceId = C.SpaceId;
    SpacesOp = C.SpacesOp;
    Access = C.Access;
    read_access = C.read_access;
    digest = C.digest;
    to_wire = C.to_wire;
    from_wire = C.from_wire;
    is_application = C.is_application;
    id = λ s. C.id s.0;
    key_bundle_message = quiet C.key_bundle_message;
    create_space = λ space initial. noted created (C.create_space space initial);
    publish = λ space plaintext. quiet (C.publish space plaintext);
    add = λ space member access. noted (added member) (C.add space member access);
    remove = λ space member. noted (removed member) (C.remove space member);
    receive = λ op. quiet (C.receive op);
    is_member = λ space actor. quiet (C.is_member space actor);
  }
