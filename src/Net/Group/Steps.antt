-- ===== src/Net/Group/Steps.antt =====
-- Histories of a group: the calls of a node, one after another, whether they succeed or not.
use para_p2p.Common.{List, [], ◌∷◌}
use para_p2p.Common.Io.Keeps.{Keeps}
use para_p2p.Common.Order.{Ord}
use para_p2p.Net.Crypto.{Crypto, Bytes}
use para_p2p.Net.Group.{EncryptedGroup, publish, receive, add_member, remove_member}

pub data Request (ActorId : Type 0) : Type 0 where
  publishing : Bytes → Request ActorId
  receiving : Bytes → Request ActorId
  adding : ActorId → Request ActorId
  removing : ActorId → Request ActorId

module _ {ActorId : Type 0} ⦃o : Ord ActorId⦄ (C : Crypto ActorId) where
  -- The state after a call.
  abbrev pub after : Request ActorId → EncryptedGroup C → EncryptedGroup C
  after (publishing plaintext) g = (publish C plaintext g).1
  after (receiving wire) g = (receive C wire g).1
  after (adding member) g = (add_member C member g).1
  after (removing member) g = (remove_member C member g).1

  abbrev pub after_all : List (Request ActorId) → EncryptedGroup C → EncryptedGroup C
  after_all [] g = g
  after_all (r ∷ rs) g = after_all rs (after r g)

  -- What every operation keeps holds after every history.
  pub after_all-Keeps {ℓ} :
      (I : EncryptedGroup C → Type ℓ)
      → ((plaintext : Bytes) → Keeps I (publish C plaintext))
      → ((wire : Bytes) → Keeps I (receive C wire))
      → ((m : ActorId) → Keeps I (add_member C m))
      → ((m : ActorId) → Keeps I (remove_member C m))
      → (rs : List (Request ActorId)) (g : EncryptedGroup C) → I g
      → I (after_all rs g)
  after_all-Keeps I p r a d [] g i = i
  after_all-Keeps I p r a d (publishing plaintext ∷ rs) g i =
      after_all-Keeps I p r a d rs (publish C plaintext g).1 (p plaintext g i)
  after_all-Keeps I p r a d (receiving wire ∷ rs) g i =
      after_all-Keeps I p r a d rs (receive C wire g).1 (r wire g i)
  after_all-Keeps I p r a d (adding m ∷ rs) g i =
      after_all-Keeps I p r a d rs (add_member C m g).1 (a m g i)
  after_all-Keeps I p r a d (removing m ∷ rs) g i =
      after_all-Keeps I p r a d rs (remove_member C m g).1 (d m g i)
