-- ===== src/Para/Crdt/Dyn/Converge.antt =====
-- Boxes with a lattice of noeta-crdt converge over the wire.
use mathlib.Core.List.{Memᴰ}
use para_p2p.Common.{List, some, ◌≡◌}
use para_p2p.Net.Crypto.{Bytes}
use para_p2p.Para.Crdt.{Setting}
use para_p2p.Para.Crdt.Dyn.{Postcard, to_bytes_dyn, dyn_crdt}
use para_p2p.Para.Crdt.Dyn.Kinds.{Kind, Carrier, mergeable, put_in_box, codec, Decodes, lattice}
use para_p2p.Para.Synced.Converge.{states_exchange}
use para_p2p.Para.Synced.Lattice.{with_messages_converge}
use para_p2p.Para.Synced.TakeIn.{with_message, with_messages}

module _ (S : Setting) (W : Postcard S) where
  -- For each of the five lattices behind a box, if what decodes is a valid state: a box with a
  -- valid state into which one list of messages is merged, and the same box with another list of
  -- the same messages, in whatever order and however often each, hold the same value; a message
  -- that does not decode changes nothing.
  pub messages_converge :
      (k : Kind) (a : Carrier S k) (bs cs : List Bytes)
      → Decodes S W k
      → (mergeable S k).IsValid a
      → ((b : Bytes) → Memᴰ b bs → Memᴰ b cs)
      → ((b : Bytes) → Memᴰ b cs → Memᴰ b bs)
      → with_messages (dyn_crdt S W) (put_in_box S k a) bs
        ≡ with_messages (dyn_crdt S W) (put_in_box S k a) cs
  messages_converge k a bs cs h v to from =
      with_messages_converge (lattice S W k h) a bs cs v to from

  -- For each of the five lattices behind a box, if what decodes is a valid state and the two valid
  -- states decode from their encodings: both boxes have an encoding, and merging either box's
  -- encoding into the other gives the same box.
  pub exchange :
      (k : Kind) (a b : Carrier S k)
      → Decodes S W k
      → (mergeable S k).IsValid a
      → (mergeable S k).IsValid b
      → (codec S W k).from_bytes ((codec S W k).to_bytes a) ≡ some a
      → (codec S W k).from_bytes ((codec S W k).to_bytes b) ≡ some b
      → (x : Bytes) × (y : Bytes) × (to_bytes_dyn S W (put_in_box S k a) ≡ some x)
        × (to_bytes_dyn S W (put_in_box S k b) ≡ some y)
        × (with_message (dyn_crdt S W) (put_in_box S k a) y
            ≡ with_message (dyn_crdt S W) (put_in_box S k b) x)
  exchange k a b h v w ra rb = states_exchange (lattice S W k h) a b v w ra rb
