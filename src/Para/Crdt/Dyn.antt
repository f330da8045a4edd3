-- ===== src/Para/Crdt/Dyn.antt =====
-- What a synced signal does with the box that it holds: `merge_dyn`, `to_bytes_dyn` and
-- `from_bytes_like` of crates/noeta-para-p2p/src/crdt.rs, over the wire format of
-- crates/noeta-crdt/src/lib.rs.
pub mod Kinds
pub mod Converge
use para_p2p.Common.{Option, none, some}
use para_p2p.Common.Order.{Ord}
use para_p2p.Crdt.GCounter
use para_p2p.Crdt.GCounter.{GCounter}
use para_p2p.Crdt.GSet as GSets
use para_p2p.Crdt.GSet.{GSet}
use para_p2p.Crdt.Lww
use para_p2p.Crdt.Lww.{LwwRegister}
use para_p2p.Crdt.OrSet
use para_p2p.Crdt.OrSet.{OrSet}
use para_p2p.Crdt.PnCounter
use para_p2p.Crdt.PnCounter.{PnCounter}
use para_p2p.Net.Crypto.{Bytes}
use para_p2p.Para.AutoDoc
use para_p2p.Para.Crdt.{Setting, Value, stored_ord, ExternValue}
use para_p2p.Para.Ctx.{DynCrdt, boxed_as}

-- `to_bytes` and `from_bytes` of the trait `Mergeable`: what `postcard` makes of a type.
pub record Codec (A : Type 0) : Type 0 where
  pub to_bytes : A → Bytes
  pub from_bytes : Bytes → Option A

pub record Postcard (S : Setting) : Type 0 where
  pub gcounter : Codec GCounter
  pub pncounter : Codec PnCounter
  pub gset : Codec GSet
  pub lww : Codec (LwwRegister (Value S))
  pub orset : Codec (OrSet (Value S))

module _ (S : Setting) where
  instance abbrev stored : Ord (Value S)
  stored = stored_ord S

  unfoldable pub merge_dyn : ExternValue S → ExternValue S → Option (ExternValue S)
  merge_dyn (ExternValue.autodoc a) (ExternValue.autodoc b) =
      some (ExternValue.autodoc (AutoDoc.merge S.automerge a b))
  merge_dyn (ExternValue.gcounter a) (ExternValue.gcounter b) =
      some (ExternValue.gcounter (GCounter.merge a b))
  merge_dyn (ExternValue.pncounter a) (ExternValue.pncounter b) =
      some (ExternValue.pncounter (PnCounter.merge a b))
  merge_dyn (ExternValue.gset a) (ExternValue.gset b) = some (ExternValue.gset (GSets.merge a b))
  merge_dyn (ExternValue.lww a) (ExternValue.lww b) = some (ExternValue.lww (Lww.merge a b))
  merge_dyn (ExternValue.orset a) (ExternValue.orset b) = some (ExternValue.orset (OrSet.merge a b))
  merge_dyn _ _ = none

module _ (S : Setting) (W : Postcard S) where
  unfoldable pub to_bytes_dyn : ExternValue S → Option Bytes
  to_bytes_dyn (ExternValue.autodoc d) = some (AutoDoc.to_bytes S.automerge d)
  to_bytes_dyn (ExternValue.gcounter c) = some (W.gcounter.to_bytes c)
  to_bytes_dyn (ExternValue.pncounter c) = some (W.pncounter.to_bytes c)
  to_bytes_dyn (ExternValue.gset s) = some (W.gset.to_bytes s)
  to_bytes_dyn (ExternValue.lww r) = some (W.lww.to_bytes r)
  to_bytes_dyn (ExternValue.orset s) = some (W.orset.to_bytes s)
  to_bytes_dyn (ExternValue.other o) = none

  unfoldable pub from_bytes_like : ExternValue S → Bytes → Option (ExternValue S)
  from_bytes_like (ExternValue.autodoc d) bytes =
      boxed_as ExternValue.autodoc (AutoDoc.from_bytes S.automerge bytes)
  from_bytes_like (ExternValue.gcounter c) bytes =
      boxed_as ExternValue.gcounter (W.gcounter.from_bytes bytes)
  from_bytes_like (ExternValue.pncounter c) bytes =
      boxed_as ExternValue.pncounter (W.pncounter.from_bytes bytes)
  from_bytes_like (ExternValue.gset s) bytes = boxed_as ExternValue.gset (W.gset.from_bytes bytes)
  from_bytes_like (ExternValue.lww r) bytes = boxed_as ExternValue.lww (W.lww.from_bytes bytes)
  from_bytes_like (ExternValue.orset s) bytes =
      boxed_as ExternValue.orset (W.orset.from_bytes bytes)
  from_bytes_like (ExternValue.other o) bytes = none

  abbrev pub dyn_crdt : DynCrdt (ExternValue S)
  dyn_crdt = record {
    merge_dyn = merge_dyn S;
    to_bytes_dyn = to_bytes_dyn;
    from_bytes_like = from_bytes_like;
  }
