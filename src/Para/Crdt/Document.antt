-- ===== src/Para/Crdt/Document.antt =====
-- `autodoc_dispatch` of crates/noeta-para-p2p/src/autodoc.rs. Its own checks of arguments are those
-- of crdt.rs.
use para_p2p.Common.{String, List, Option, none, some, if◌then◌else◌}
use para_p2p.Common.Fallible.{◌>>=◌, ◌>>◌}
use para_p2p.Common.Io.{Result, ok, err}
use para_p2p.Common.Order.{is_text}
use para_p2p.Net.Crypto.{Bytes}
use para_p2p.Para.AutoDoc
use para_p2p.Para.AutoDoc.{AutoDoc}
use para_p2p.Para.Crdt.{
  Setting, ExternValue, Arg, Out, get_elem?, want_arity, want_str, want_extern, as_autodoc,
}
use para_p2p.Para.Crdt.Methods.{boxed, out_strings}
use para_p2p.Para.Native.{NativeValue, NativeOut}

module _ (S : Setting) where
  unfoldable pub want_bytes : String → List (Arg S) → Result Bytes
  want_bytes method args = elim (get_elem? S args 0) [
    | some (NativeValue.bytes b) ↦ ok b
    | _ ↦ err (S.type_error method "bytes")
  ]

  -- A payload that is no document changes nothing.
  unfoldable pub merge_bytes : AutoDoc S.automerge → Bytes → AutoDoc S.automerge
  merge_bytes doc bytes = elim (AutoDoc.from_bytes S.automerge bytes) [
    | some peer ↦ AutoDoc.merge S.automerge doc peer
    | none ↦ doc
  ]

  abbrev pub out_string : Option String → Out S
  out_string none = NativeOut.absent
  out_string (some s) = NativeOut.present (NativeOut.str s)

  abbrev pub doc_out : AutoDoc S.automerge → Result (Out S)
  doc_out doc = boxed S (ExternValue.autodoc doc)

  unfoldable pub with_document : String → List (Arg S) → AutoDoc S.automerge → Result (Out S)
  unfolding want_arity want_str want_extern want_bytes merge_bytes
  with_document method args doc =
      if is_text method "put"
      then (do
        want_arity S method args 2
        key ← want_str S method args 0
        value ← want_str S method args 1
        doc_out (AutoDoc.put S.automerge doc key value))
      else if is_text method "get"
      then (do
        want_arity S method args 1
        key ← want_str S method args 0
        ok (out_string (AutoDoc.get S.automerge doc key)))
      else if is_text method "remove"
      then (do
        want_arity S method args 1
        key ← want_str S method args 0
        doc_out (AutoDoc.remove S.automerge doc key))
      else if is_text method "keys"
      then (do
        want_arity S method args 0
        ok (NativeOut.list (out_strings S (AutoDoc.keys S.automerge doc))))
      else if is_text method "merge"
      then (do
        want_arity S method args 1
        other ← want_extern S (as_autodoc S) method args 0 "AutoDoc"
        doc_out (AutoDoc.merge S.automerge doc other))
      else if is_text method "to_bytes"
      then (do want_arity S method args 0; ok (NativeOut.bytes (AutoDoc.to_bytes S.automerge doc)))
      else if is_text method "merge_bytes"
      then (do
        want_arity S method args 1
        bytes ← want_bytes method args
        doc_out (merge_bytes doc bytes))
      else err (S.no_method_error "AutoDoc" method)

  unfoldable pub autodoc_dispatch : ExternValue S → String → List (Arg S) → Result (Out S)
  unfolding with_document
  autodoc_dispatch recv method args = elim (as_autodoc S recv) [
    | some doc ↦ with_document method args doc
    | none ↦ err (S.type_error method "AutoDoc")
  ]
