-- ===== src/Net/Group/Frame.antt =====
-- What a welcome leaves alone, and the states inside `receive` and `add_member`.
use para_p2p.Common.{
  ◌∙◌, String, ◌≡◌, refl, Bool, true, false, List, [], ◌∷◌, ◌++◌, arith, filter, if◌then◌else◌, any,
}
use para_p2p.Common.HashSet
use para_p2p.Common.Io.{Result, ok, err, pure}
use para_p2p.Common.Order.{Ord}
use para_p2p.Net.Crypto.{Crypto, Event}
use para_p2p.Net.Group.{
  EncryptedGroup, on_crypto, welcome_each, welcome_eligible, is_eligible, learn_bundles, same,
}

module _ {ActorId : Type 0} ⦃o : Ord ActorId⦄ (C : Crypto ActorId) where
  -- The two states differ in the stores and in who has been welcomed at most.
  pub record Frame (g h : EncryptedGroup C) : Type 0 where
    pub space_id : h.space_id ≡ g.space_id
    pub members : h.members ≡ g.members
    pub me : h.me ≡ g.me
    pub creator : h.creator ≡ g.creator
    pub welcomed : h.welcomed ≡ g.welcomed
    pub known_bundles : h.known_bundles ≡ g.known_bundles
    pub pending : h.pending ≡ g.pending

  -- The state once the new bundles are known.
  abbrev pub learned : List (Event ActorId) → EncryptedGroup C → EncryptedGroup C
  learned events g = record g { known_bundles = learn_bundles events g.known_bundles }

  -- The state once the member is declared.
  abbrev pub declared : ActorId → EncryptedGroup C → EncryptedGroup C
  declared m g = record g {
    members = if any (same m) g.members then g.members else g.members ++ (m ∷ []);
  }

  -- The state after one member is welcomed, and after its welcome fails.
  abbrev pub greeted : ActorId → EncryptedGroup C → EncryptedGroup C
  greeted m g = record g {
    crypto = (C.add g.space_id m C.read_access g.crypto).1;
    added = HashSet.insert m g.added;
  }

  abbrev pub failed : ActorId → EncryptedGroup C → EncryptedGroup C
  failed m g = record g { crypto = (C.add g.space_id m C.read_access g.crypto).1 }

  Frame-refl : (g : EncryptedGroup C) → Frame g g
  Frame-refl g = record {
    space_id = refl;
    members = refl;
    me = refl;
    creator = refl;
    welcomed = refl;
    known_bundles = refl;
    pending = refl;
  }

  -- A welcome of a list of members ends at the first that fails.
  pub welcome_each_state :
      (m : ActorId) (ms : List ActorId) (g : EncryptedGroup C)
      → (welcome_each C (m ∷ ms) g).1
        ≡ elim (C.add g.space_id m C.read_access g.crypto).0 as (λ r. EncryptedGroup C) [
          | ok ops ↦ (welcome_each C ms (greeted m g)).1
          | err e ↦ failed m g
        ]
  unfolding welcome_each on_crypto
  welcome_each_state m ms g = ground arith

  pub welcome_each_next :
      (m : ActorId) (ms : List ActorId) (g : EncryptedGroup C) (ops : List C.SpacesOp)
      → (C.add g.space_id m C.read_access g.crypto).0 ≡ ok ops
      → (welcome_each C (m ∷ ms) g).1 ≡ (welcome_each C ms (greeted m g)).1
  welcome_each_next m ms g ops e = welcome_each_state m ms g ∙ rw e refl

  pub welcome_each_stop :
      (m : ActorId) (ms : List ActorId) (g : EncryptedGroup C) (reason : String)
      → (C.add g.space_id m C.read_access g.crypto).0 ≡ err reason
      → (welcome_each C (m ∷ ms) g).1 ≡ failed m g
  welcome_each_stop m ms g reason e = welcome_each_state m ms g ∙ rw e refl

  pub welcome_each_nil : (g : EncryptedGroup C) → (welcome_each C [] g).1 ≡ g
  unfolding welcome_each
  welcome_each_nil g = refl

  pub welcome_each-Frame :
      (ms : List ActorId) (g : EncryptedGroup C) → Frame g (welcome_each C ms g).1
  unfolding welcome_each
  welcome_each-Frame [] g = Frame-refl g
  welcome_each-Frame (m ∷ ms) g = rw (welcome_each_state m ms g) (
      after_add (welcome_each-Frame ms (greeted m g)) (C.add g.space_id m C.read_access g.crypto).0)
    where
      after_add :
          Frame (greeted m g) (welcome_each C ms (greeted m g)).1
          → (r : Result (List C.SpacesOp))
          → Frame g (elim r as (λ r. EncryptedGroup C) [
            | ok ops ↦ (welcome_each C ms (greeted m g)).1
            | err e ↦ failed m g
          ])
      after_add f (ok ops) = record {
        space_id = f.space_id;
        members = f.members;
        me = f.me;
        creator = f.creator;
        welcomed = f.welcomed;
        known_bundles = f.known_bundles;
        pending = f.pending;
      }
      after_add f (err e) = record {
        space_id = refl;
        members = refl;
        me = refl;
        creator = refl;
        welcomed = refl;
        known_bundles = refl;
        pending = refl;
      }

  pub welcome_eligible-Frame : (g : EncryptedGroup C) → Frame g (welcome_eligible C g).1
  unfolding welcome_eligible
  welcome_eligible-Frame g = pick g.creator
    where
      pick :
          (b : Bool)
          → Frame g
              ((if b then welcome_each C (filter (is_eligible C g) g.members) else pure []) g).1
      pick true = welcome_each-Frame (filter (is_eligible C g) g.members) g
      pick false = Frame-refl g
