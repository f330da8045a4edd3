-- ===== src/Net/Group/Rights.antt =====
-- Only the creator manages the space.
use para_p2p.Common.{String, ◌≡◌, Bool, false, List, arith, inl, inr}
use para_p2p.Common.Io.{Result-cases}
use para_p2p.Common.Io.Keeps.{Keeps}
use para_p2p.Common.Order.{Ord}
use para_p2p.Net.Crypto.{Crypto, Bytes, Event}
use para_p2p.Net.Crypto.Traced.{traced, Call}
use para_p2p.Net.Group.{
  EncryptedGroup, on_crypto, announce, create, open_group, welcome_eligible, publish, flush, join,
  take_events, receive, add_member, remove_member, is_creator,
}
use para_p2p.Net.Group.Steps.{Request, after_all, after_all-Keeps}

module _ {ActorId : Type 0} ⦃o : Ord ActorId⦄ (C : Crypto ActorId) where
  -- The node is not the creator, and has made the calls `calls`.
  abbrev IsGuest : List (Call ActorId × Bool) → EncryptedGroup (traced C) → Type 0
  IsGuest calls g = (g.creator ≡ false) × (g.crypto.1 ≡ calls)

  module _ (calls : List (Call ActorId × Bool)) where
    publish-IsGuest : (plaintext : Bytes) → Keeps (IsGuest calls) (publish (traced C) plaintext)
    unfolding publish on_crypto
    publish-IsGuest plaintext g i = ground arith

    join-IsGuest : Keeps (IsGuest calls) (join (traced C))
    unfolding join on_crypto flush
    join-IsGuest g i = ground arith

    take_events-IsGuest :
        (events : List (Event ActorId)) → Keeps (IsGuest calls) (take_events (traced C) events)
    unfolding take_events welcome_eligible join on_crypto flush
    take_events-IsGuest events g i = ground arith

    receive-IsGuest : (wire : Bytes) → Keeps (IsGuest calls) (receive (traced C) wire)
    unfolding receive on_crypto
    receive-IsGuest wire g i = elim (Result-cases (C.from_wire wire)) [
      | inl (op, e) ↦ elim (Result-cases (C.receive op g.crypto.0).0) [
        | inl (events, k) ↦ ground (
          arith,
          take_events-IsGuest events
              (record g { crypto = ((C.receive op g.crypto.0).1, g.crypto.1) }),
        )
        | inr (reason, k) ↦ ground arith
      ]
      | inr (reason, e) ↦ ground arith
    ]

    add_member-IsGuest : (m : ActorId) → Keeps (IsGuest calls) (add_member (traced C) m)
    unfolding add_member welcome_eligible
    add_member-IsGuest m g i = ground arith

    remove_member-IsGuest : (m : ActorId) → Keeps (IsGuest calls) (remove_member (traced C) m)
    unfolding remove_member on_crypto
    remove_member-IsGuest m g i = ground arith

  open_group-IsGuest :
      (topic : String) (members : List ActorId) (crypto : C.State)
      (calls : List (Call ActorId × Bool))
      → is_creator members (C.id crypto) ≡ false
      → IsGuest calls (open_group (traced C) topic members (crypto, calls)).1
  unfolding open_group announce create on_crypto
  open_group-IsGuest topic members crypto calls h = ground arith

  -- A node that is not elected never creates the space, nor adds or removes a member, whatever is
  -- asked of it and whatever it receives.
  pub after_all-IsGuest :
      (topic : String) (members : List ActorId) (crypto : C.State)
      (calls : List (Call ActorId × Bool)) (rs : List (Request ActorId))
      → is_creator members (C.id crypto) ≡ false
      → (after_all (traced C) rs (open_group (traced C) topic members (crypto, calls)).1).crypto.1
        ≡ calls
  after_all-IsGuest topic members crypto calls rs h =
      (after_all-Keeps (traced C) (IsGuest calls) (publish-IsGuest calls) (receive-IsGuest calls)
        (add_member-IsGuest calls) (remove_member-IsGuest calls) rs
        (open_group (traced C) topic members (crypto, calls)).1
        (open_group-IsGuest topic members crypto calls h)).1
