-- ===== src/Para/Crdt/Dyn/Kinds.antt =====
-- The five lattices of noeta-crdt behind one box: what the three operations of crdt.rs do at each.
use para_p2p.Common.{some, ◌≡◌, refl}
use para_p2p.Common.Order.{Ord}
use para_p2p.Crdt.GCounter.{GCounter}
use para_p2p.Crdt.GCounter.Laws.{gcounter_mergeable}
use para_p2p.Crdt.GSet.{GSet}
use para_p2p.Crdt.GSet.Laws.{gset_mergeable}
use para_p2p.Crdt.Lww.{LwwRegister}
use para_p2p.Crdt.Lww.Laws.{lww_mergeable}
use para_p2p.Crdt.Mergeable.{Mergeable}
use para_p2p.Crdt.OrSet.{OrSet}
use para_p2p.Crdt.OrSet.Laws.{orset_mergeable}
use para_p2p.Crdt.PnCounter.{PnCounter}
use para_p2p.Crdt.PnCounter.Laws.{pncounter_mergeable}
use para_p2p.Net.Crypto.{Bytes}
use para_p2p.Para.Crdt.{Setting, Value, stored_ord, ExternValue}
use para_p2p.Para.Crdt.Dyn.{Codec, Postcard, merge_dyn, to_bytes_dyn, from_bytes_like, dyn_crdt}
use para_p2p.Para.Synced.Lattice.{Lattice}
use para_p2p.Para.Ctx.{boxed_as}

pub data Kind : Type 0 where
  gcounter pncounter gset lww orset : Kind

module _ (S : Setting) where
  instance abbrev stored : Ord (Value S)
  stored = stored_ord S

  abbrev pub Carrier : Kind → Type 0
  Carrier Kind.gcounter = GCounter
  Carrier Kind.pncounter = PnCounter
  Carrier Kind.gset = GSet
  Carrier Kind.lww = LwwRegister (Value S)
  Carrier Kind.orset = OrSet (Value S)

  abbrev pub mergeable : (k : Kind) → Mergeable (Carrier k)
  mergeable Kind.gcounter = gcounter_mergeable
  mergeable Kind.pncounter = pncounter_mergeable
  mergeable Kind.gset = gset_mergeable
  mergeable Kind.lww = lww_mergeable
  mergeable Kind.orset = orset_mergeable

  abbrev pub put_in_box : (k : Kind) → Carrier k → ExternValue S
  put_in_box Kind.gcounter c = ExternValue.gcounter c
  put_in_box Kind.pncounter c = ExternValue.pncounter c
  put_in_box Kind.gset s = ExternValue.gset s
  put_in_box Kind.lww r = ExternValue.lww r
  put_in_box Kind.orset s = ExternValue.orset s

  abbrev pub codec : Postcard S → (k : Kind) → Codec (Carrier k)
  codec W Kind.gcounter = W.gcounter
  codec W Kind.pncounter = W.pncounter
  codec W Kind.gset = W.gset
  codec W Kind.lww = W.lww
  codec W Kind.orset = W.orset

  -- `serde` rebuilds the maps and sets of a state by insertion, so that what decodes is a state.
  abbrev pub Decodes : Postcard S → Kind → Type 0
  Decodes W k =
      (b : Bytes) (a : Carrier k) → (codec W k).from_bytes b ≡ some a → (mergeable k).IsValid a

  pub merge_dyn_at :
      (k : Kind) (a b : Carrier k)
      → merge_dyn S (put_in_box k a) (put_in_box k b)
        ≡ some (put_in_box k ((mergeable k).merge a b))
  unfolding merge_dyn
  merge_dyn_at Kind.gcounter a b = refl
  merge_dyn_at Kind.pncounter a b = refl
  merge_dyn_at Kind.gset a b = refl
  merge_dyn_at Kind.lww a b = refl
  merge_dyn_at Kind.orset a b = refl

  pub from_bytes_like_at :
      (W : Postcard S) (k : Kind) (a : Carrier k) (b : Bytes)
      → from_bytes_like S W (put_in_box k a) b ≡ boxed_as (put_in_box k) ((codec W k).from_bytes b)
  unfolding from_bytes_like
  from_bytes_like_at W Kind.gcounter a b = refl
  from_bytes_like_at W Kind.pncounter a b = refl
  from_bytes_like_at W Kind.gset a b = refl
  from_bytes_like_at W Kind.lww a b = refl
  from_bytes_like_at W Kind.orset a b = refl

  pub to_bytes_dyn_at :
      (W : Postcard S) (k : Kind) (a : Carrier k)
      → to_bytes_dyn S W (put_in_box k a) ≡ some ((codec W k).to_bytes a)
  unfolding to_bytes_dyn
  to_bytes_dyn_at W Kind.gcounter a = refl
  to_bytes_dyn_at W Kind.pncounter a = refl
  to_bytes_dyn_at W Kind.gset a = refl
  to_bytes_dyn_at W Kind.lww a = refl
  to_bytes_dyn_at W Kind.orset a = refl

  pub put_in_box_injective : (k : Kind) (a b : Carrier k) → put_in_box k a ≡ put_in_box k b → a ≡ b
  put_in_box_injective Kind.gcounter a b h = cc
  put_in_box_injective Kind.pncounter a b h = cc
  put_in_box_injective Kind.gset a b h = cc
  put_in_box_injective Kind.lww a b h = cc
  put_in_box_injective Kind.orset a b h = cc

  abbrev pub lattice : (W : Postcard S) (k : Kind) → Decodes W k → Lattice (dyn_crdt S W)
  lattice W k h = record {
    A = Carrier k;
    mergeable = mergeable k;
    box = put_in_box k;
    to_bytes = (codec W k).to_bytes;
    from_bytes = (codec W k).from_bytes;
    box_injective = put_in_box_injective k;
    merge_dyn_box = merge_dyn_at k;
    to_bytes_dyn_box = to_bytes_dyn_at W k;
    from_bytes_like_box = from_bytes_like_at W k;
    from_bytes-IsValid = h;
  }
