-- ===== src/Para/AutoDoc.antt =====
-- `AutoDoc` of crates/noeta-para-p2p/src/autodoc.rs: a document of Automerge with its heads.
use para_p2p.Common.{String, Bool, List, Option, none, some}
use para_p2p.Common.Io.{Result, ok, err}
use para_p2p.Net.Crypto.{Bytes}

-- What the code calls of the crate `automerge`, at the root of a document. A call behind `&mut self`
-- hands back the document that it leaves.
pub record Automerge : Type 1 where
  pub AutoCommit : Type 0
  pub ChangeHash : Type 0
  pub new_doc : AutoCommit
  pub get_heads : AutoCommit → List ChangeHash × AutoCommit
  pub same_heads : List ChangeHash → List ChangeHash → Bool
  pub save : AutoCommit → Bytes
  pub load : Bytes → Result AutoCommit
  pub merge_doc : AutoCommit → AutoCommit → Result AutoCommit
  pub put_str : AutoCommit → String → String → Result AutoCommit
  pub delete : AutoCommit → String → Result AutoCommit
  -- The string under a key, if there is one.
  pub get_str : AutoCommit → String → Option String
  -- `keys(ROOT)`, then sorted
  pub sorted_keys : AutoCommit → List String

module _ (M : Automerge) where
  open M use {AutoCommit, ChangeHash}

  pub record AutoDoc : Type 0 where
    pub doc : AutoCommit
    pub heads : List ChangeHash

  -- `AutoDoc::new`
  unfoldable pub wrap : AutoCommit → AutoDoc
  wrap doc = record { doc = (M.get_heads doc).1; heads = (M.get_heads doc).0 }

  unfoldable pub empty : AutoDoc
  unfolding wrap
  empty = wrap M.new_doc

  unfoldable pub to_bytes : AutoDoc → Bytes
  to_bytes d = M.save d.doc

  unfoldable pub from_bytes : Bytes → Option AutoDoc
  unfolding wrap
  from_bytes bytes = elim (M.load bytes) [ ok doc ↦ some (wrap doc) | err e ↦ none ]

  -- A call that fails leaves the document as it is.
  unfoldable pub or_keep : AutoDoc → Result AutoCommit → AutoDoc
  unfolding wrap
  or_keep d (ok doc) = wrap doc
  or_keep d (err e) = d

  unfoldable pub merge : AutoDoc → AutoDoc → AutoDoc
  unfolding or_keep
  merge d other = or_keep d (M.merge_doc d.doc other.doc)

  unfoldable pub put : AutoDoc → String → String → AutoDoc
  unfolding or_keep
  put d key value = or_keep d (M.put_str d.doc key value)

  unfoldable pub remove : AutoDoc → String → AutoDoc
  unfolding or_keep
  remove d key = or_keep d (M.delete d.doc key)

  unfoldable pub get : AutoDoc → String → Option String
  get d key = M.get_str d.doc key

  unfoldable pub keys : AutoDoc → List String
  keys d = M.sorted_keys d.doc
