-- ===== src/Para/Crdt/Methods.antt =====
-- `crdt_dispatch` and the method dispatch of each type of crates/noeta-para-p2p/src/crdt.rs.
use para_p2p.Common.{ℕ, String, List, [], ◌∷◌, Option, none, some, if◌then◌else◌, ◌||◌}
use para_p2p.Common.Fallible.{◌>>=◌, ◌>>◌}
use para_p2p.Common.Int.{pos}
use para_p2p.Common.Io.{Result, ok, err}
use para_p2p.Common.Order.{Ord, is_text}
use para_p2p.Crdt.GCounter
use para_p2p.Crdt.GCounter.{GCounter}
use para_p2p.Crdt.GSet as GSets
use para_p2p.Crdt.GSet.{GSet, members as gset_members}
use para_p2p.Crdt.Lww
use para_p2p.Crdt.Lww.{LwwRegister}
use para_p2p.Crdt.OrSet
use para_p2p.Crdt.OrSet.{OrSet}
use para_p2p.Crdt.PnCounter
use para_p2p.Crdt.PnCounter.{PnCounter}
use para_p2p.Para.AutoDoc
use para_p2p.Para.Crdt.{
  Setting, Value, stored_ord, ExternValue, Arg, Out, type_identity, get_elem?, want_arity,
  want_arity_range, want_str, want_amount, downcast, want_extern, clamp_u64, as_gcounter,
  as_pncounter, as_gset, as_lww, as_orset,
}
use para_p2p.Para.Native.{Scalar, NativeOut, OutItems}
use para_p2p.Para.Values.{from_native, to_out}

module _ (S : Setting) where
  instance abbrev stored : Ord (Value S)
  stored = stored_ord S

  -- `extern_out`
  abbrev pub boxed : ExternValue S → Result (Out S)
  boxed e = ok (NativeOut.extern e)

  unfoldable pub crdt_dispatch : String → List (Arg S) → Result (Out S)
  unfolding want_arity
  crdt_dispatch func args =
      if is_text func "gcounter"
      then (do want_arity S func args 0; boxed (ExternValue.gcounter GCounter.new))
      else if is_text func "pncounter"
      then (do want_arity S func args 0; boxed (ExternValue.pncounter PnCounter.new))
      else if is_text func "gset"
      then (do want_arity S func args 0; boxed (ExternValue.gset GSets.new))
      else if is_text func "lww"
      then (do want_arity S func args 0; boxed (ExternValue.lww Lww.new))
      else if is_text func "orset"
      then (do want_arity S func args 0; boxed (ExternValue.orset OrSet.new))
      else if is_text func "automerge"
      then (do want_arity S func args 0; boxed (ExternValue.autodoc (AutoDoc.empty S.automerge)))
      else err (S.no_function_error "crdt" func)

  unfoldable pub gcounter_method_dispatch : ExternValue S → String → List (Arg S) → Result (Out S)
  unfolding want_arity want_arity_range want_str want_amount downcast want_extern
  gcounter_method_dispatch recv method args = do
    c ← downcast S (as_gcounter S recv) "GCounter"
    (if is_text method "increment"
        then (do
          want_arity_range S method args 1 2
          replica ← want_str S method args 0
          by ← want_amount S method args 1
          boxed (ExternValue.gcounter (GCounter.increment c replica by)))
        else if is_text method "value"
        then (do
          want_arity S method args 0
          ok (NativeOut.scalar (Scalar.int (clamp_u64 S (GCounter.value c)))))
        else if is_text method "merge"
        then (do
          want_arity S method args 1
          other ← want_extern S (as_gcounter S) method args 0 "GCounter"
          boxed (ExternValue.gcounter (GCounter.merge c other)))
        else err (S.no_method_error "GCounter" method))

  unfoldable pub pncounter_method_dispatch : ExternValue S → String → List (Arg S) → Result (Out S)
  unfolding want_arity want_arity_range want_str want_amount downcast want_extern
  pncounter_method_dispatch recv method args = do
    c ← downcast S (as_pncounter S recv) "PnCounter"
    (if is_text method "increment" || is_text method "decrement"
        then (do
          want_arity_range S method args 1 2
          replica ← want_str S method args 0
          by ← want_amount S method args 1
          boxed (
              ExternValue.pncounter (
                if is_text method "increment"
                then PnCounter.increment c replica by
                else PnCounter.decrement c replica by)))
        else if is_text method "value"
        then (do want_arity S method args 0; ok (NativeOut.scalar (Scalar.int (PnCounter.value c))))
        else if is_text method "merge"
        then (do
          want_arity S method args 1
          other ← want_extern S (as_pncounter S) method args 0 "PnCounter"
          boxed (ExternValue.pncounter (PnCounter.merge c other)))
        else err (S.no_method_error "PnCounter" method))

  abbrev pub out_strings : List String → OutItems S.F64 S.F32 (ExternValue S)
  out_strings [] = OutItems.nil
  out_strings (s ∷ ss) = OutItems.cons (NativeOut.str s) (out_strings ss)

  abbrev pub out_values : List (Value S) → OutItems S.F64 S.F32 (ExternValue S)
  out_values [] = OutItems.nil
  out_values (v ∷ vs) = OutItems.cons (to_out v) (out_values vs)

  unfoldable pub gset_method_dispatch : ExternValue S → String → List (Arg S) → Result (Out S)
  unfolding want_arity want_str downcast want_extern
  gset_method_dispatch recv method args = do
    s ← downcast S (as_gset S recv) "GSet"
    (if is_text method "insert"
        then (do
          want_arity S method args 1
          element ← want_str S method args 0
          boxed (ExternValue.gset (GSets.insert s element)))
        else if is_text method "contains"
        then (do
          want_arity S method args 1
          element ← want_str S method args 0
          ok (NativeOut.scalar (Scalar.bool (GSets.contains s element))))
        else if is_text method "len"
        then (do want_arity S method args 0; ok (NativeOut.scalar (Scalar.int (pos (GSets.len s)))))
        else if is_text method "members"
        then (do want_arity S method args 0; ok (NativeOut.list (out_strings (gset_members s))))
        else if is_text method "merge"
        then (do
          want_arity S method args 1
          other ← want_extern S (as_gset S) method args 0 "GSet"
          boxed (ExternValue.gset (GSets.merge s other)))
        else err (S.no_method_error "GSet" method))

  -- `from_native(method, &args[index])`, behind the check of the arity
  unfoldable pub want_value : String → List (Arg S) → ℕ → Result (Value S)
  want_value method args index = elim (get_elem? S args index) [
    | some x ↦ from_native (type_identity S) method x
    | none ↦ err "index out of bounds"
  ]

  abbrev pub out_option : Option (Value S) → Out S
  out_option none = NativeOut.absent
  out_option (some v) = NativeOut.present (to_out v)

  unfoldable pub lww_method_dispatch : ExternValue S → String → List (Arg S) → Result (Out S)
  unfolding want_arity want_str downcast want_extern want_value
  lww_method_dispatch recv method args = do
    reg ← downcast S (as_lww S recv) "LwwRegister"
    (if is_text method "set"
        then (do
          want_arity S method args 2
          replica ← want_str S method args 0
          value ← want_value method args 1
          boxed (ExternValue.lww (Lww.set reg replica value)))
        else if is_text method "get"
        then (do want_arity S method args 0; ok (out_option (Lww.get reg)))
        else if is_text method "merge"
        then (do
          want_arity S method args 1
          other ← want_extern S (as_lww S) method args 0 "LwwRegister"
          boxed (ExternValue.lww (Lww.merge reg other)))
        else err (S.no_method_error "LwwRegister" method))

  unfoldable pub orset_method_dispatch : ExternValue S → String → List (Arg S) → Result (Out S)
  unfolding want_arity want_str downcast want_extern want_value
  orset_method_dispatch recv method args = do
    set ← downcast S (as_orset S recv) "OrSet"
    (if is_text method "insert"
        then (do
          want_arity S method args 2
          replica ← want_str S method args 0
          element ← want_value method args 1
          boxed (ExternValue.orset (OrSet.insert set replica element)))
        else if is_text method "remove" || is_text method "contains"
        then (do
          want_arity S method args 1
          element ← want_value method args 0
          (if is_text method "remove"
              then boxed (ExternValue.orset (OrSet.remove set element))
              else ok (NativeOut.scalar (Scalar.bool (OrSet.contains set element)))))
        else if is_text method "len"
        then (do
          want_arity S method args 0
          ok (NativeOut.scalar (Scalar.int (pos (OrSet.len set)))))
        else if is_text method "members"
        then (do want_arity S method args 0; ok (NativeOut.list (out_values (OrSet.members set))))
        else if is_text method "merge"
        then (do
          want_arity S method args 1
          other ← want_extern S (as_orset S) method args 0 "OrSet"
          boxed (ExternValue.orset (OrSet.merge set other)))
        else err (S.no_method_error "OrSet" method))
