-- ===== src/Net/Group/Pending.antt =====
-- The state that waits for the welcome: it is kept until then, the latest only, and sent once.
use para_p2p.Common.{
  String, ◌≡◌, refl, true, false, List, [], ◌∷◌, ◌++◌, none, some, arith, inl, inr, map, ap, ◌∙◌,
}
use para_p2p.Common.Io.{Result-cases, ok, err}
use para_p2p.Common.Io.Keeps.{Keeps}
use para_p2p.Common.Order.{Ord}
use para_p2p.Net.Crypto.{Crypto, Bytes, Event}
use para_p2p.Net.Group.{
  EncryptedGroup, on_crypto, announce, create, open_group, welcome_eligible, publish, flush, join,
  take_events, receive, add_member, remove_member,
}
use para_p2p.Net.Group.Frame.{welcome_eligible-Frame, learned, declared}
use para_p2p.Net.Group.Steps.{Request, publishing, after_all, after_all-Keeps}

module _ {ActorId : Type 0} ⦃o : Ord ActorId⦄ (C : Crypto ActorId) where
  -- A node that has been welcomed keeps nothing back.
  abbrev pub IsSettled : EncryptedGroup C → Type 0
  IsSettled g = g.welcomed ≡ true → g.pending ≡ none

  publish-Keeps : (plaintext : Bytes) → Keeps IsSettled (publish C plaintext)
  unfolding publish on_crypto
  publish-Keeps plaintext g i = ground arith

  join-Keeps : Keeps IsSettled (join C)
  unfolding join on_crypto flush
  join-Keeps g i = ground arith

  take_events-Keeps : (events : List (Event ActorId)) → Keeps IsSettled (take_events C events)
  unfolding take_events
  take_events-Keeps events g i =
      let h = learned C events g in
      ground (arith, welcome_eligible-Frame C h, join-Keeps (welcome_eligible C h).1)

  receive-Keeps : (wire : Bytes) → Keeps IsSettled (receive C wire)
  unfolding receive on_crypto
  receive-Keeps wire g i = elim (Result-cases (C.from_wire wire)) [
    | inl (op, e) ↦ elim (Result-cases (C.receive op g.crypto).0) [
      | inl (events, k) ↦
          ground (arith, take_events-Keeps events (record g { crypto = (C.receive op g.crypto).1 }))
      | inr (reason, k) ↦ ground arith
    ]
    | inr (reason, e) ↦ ground arith
  ]

  add_member-Keeps : (m : ActorId) → Keeps IsSettled (add_member C m)
  unfolding add_member
  add_member-Keeps m g i = ground (arith, welcome_eligible-Frame C (declared C m g))

  remove_member-Keeps : (m : ActorId) → Keeps IsSettled (remove_member C m)
  unfolding remove_member on_crypto
  remove_member-Keeps m g i = ground arith

  open_group-IsSettled :
      (topic : String) (members : List ActorId) (crypto : C.State)
      → IsSettled (open_group C topic members crypto).1
  unfolding open_group announce create on_crypto
  open_group-IsSettled topic members crypto = ground arith

  -- Opened with whatever members, and after any calls, failed ones included: a node that has been
  -- welcomed keeps no state back.
  after_all-pending :
      (topic : String) (members : List ActorId) (crypto : C.State) (rs : List (Request ActorId))
      → (after_all C rs (open_group C topic members crypto).1).welcomed ≡ true
      → (after_all C rs (open_group C topic members crypto).1).pending ≡ none
  after_all-pending topic members crypto rs =
      after_all-Keeps C IsSettled publish-Keeps receive-Keeps add_member-Keeps remove_member-Keeps
        rs (open_group C topic members crypto).1 (open_group-IsSettled topic members crypto)

  publish_unwelcomed :
      (plaintext : Bytes) (g : EncryptedGroup C)
      → g.welcomed ≡ false
      → (publish C plaintext g).1 ≡ record g { pending = some plaintext }
  unfolding publish
  publish_unwelcomed plaintext g h = ground arith

  -- The calls that publish the states `earlier` and then `last`.
  abbrev pub publishing_all : List Bytes → Bytes → List (Request ActorId)
  publishing_all earlier last = map publishing earlier ++ (publishing last ∷ [])

  after_all-publishing_all :
      (earlier : List Bytes) (last : Bytes) (g : EncryptedGroup C)
      → g.welcomed ≡ false
      → after_all C (publishing_all earlier last) g ≡ record g { pending = some last }
  after_all-publishing_all [] last g h = publish_unwelcomed last g h
  after_all-publishing_all (p ∷ earlier) last g h =
      ap (after_all C (publishing_all earlier last)) (publish_unwelcomed p g h)
      ∙ after_all-publishing_all earlier last (record g { pending = some p }) h

  -- A node that is not welcomed publishes states, then finds that it is a member. It sends the last
  -- of the states and no other, if the state can be encrypted.
  pub join-publishing_all :
      (earlier : List Bytes) (last : Bytes) (g : EncryptedGroup C) (c d : C.State) (op : C.SpacesOp)
      → g.welcomed ≡ false
      → C.is_member g.space_id g.me g.crypto ≡ (ok true, c)
      → C.publish g.space_id last c ≡ (ok op, d)
      → join C (after_all C (publishing_all earlier last) g)
        ≡ (ok (C.to_wire op ∷ []), record g { crypto = d; welcomed = true; pending = none })
  unfolding join flush on_crypto
  join-publishing_all earlier last g c d op h here sent =
      rw (after_all-publishing_all earlier last g h) (ground arith)

  -- If the state cannot be encrypted, it is lost: the call fails, the node counts as welcomed, and
  -- to look again sends nothing.
  pub join_failed :
      (earlier : List Bytes) (last : Bytes) (g : EncryptedGroup C) (c d : C.State) (reason : String)
      → g.welcomed ≡ false
      → C.is_member g.space_id g.me g.crypto ≡ (ok true, c)
      → C.publish g.space_id last c ≡ (err reason, d)
      → let settled : EncryptedGroup C = record g { crypto = d; welcomed = true; pending = none } in
        (join C (after_all C (publishing_all earlier last) g) ≡ (err reason, settled))
        × (join C settled ≡ (ok [], settled))
  unfolding join flush on_crypto
  join_failed earlier last g c d reason h here lost =
      (rw (after_all-publishing_all earlier last g h) (ground arith), refl)
