-- ===== src/Para/Crdt/Display.antt =====
-- `display` of the boxes of crates/noeta-para-p2p/src/crdt.rs and autodoc.rs.
use para_p2p.Common.{String, none, some, map}
use para_p2p.Common.Int.{pos}
use para_p2p.Common.Text.{join, write_int}
use para_p2p.Crdt.GCounter.{value as gcounter_value}
use para_p2p.Crdt.GSet.{members as gset_members}
use para_p2p.Crdt.Lww.{LwwRegister, get}
use para_p2p.Crdt.OrSet.{OrSet, members as orset_members}
use para_p2p.Crdt.PnCounter.{value as pncounter_value}
use para_p2p.Crdt.Value.Display.{FloatText, write}
use para_p2p.Para.AutoDoc.{keys}
use para_p2p.Para.Crdt.{Setting, Value, ExternValue}
use Prim.Native.String.{◌++◌}

module _ (S : Setting) (floats : FloatText S.F64 S.F32) where
  -- `display` of a LwwRegister
  unfoldable display_lww : LwwRegister (Value S) → String
  unfolding get write
  display_lww r = elim (get r) [
    | some value ↦ "<lww " ++ write floats value ++ ">"
    | none ↦ "<lww unset>"
  ]

  -- `display` of an OrSet
  unfoldable display_orset : OrSet (Value S) → String
  unfolding orset_members write join
  display_orset s = "<orset [" ++ join (map (write floats) (orset_members s)) ", " ++ "]>"

  -- What a box writes of itself, where `display_other` is for the boxes of other modules.
  unfoldable pub display : (S.Other → String) → ExternValue S → String
  unfolding gcounter_value pncounter_value gset_members keys join write_int display_lww
      display_orset
  display display_other (ExternValue.gcounter c) =
      "<gcounter " ++ write_int (pos (gcounter_value c)) ++ ">"
  display display_other (ExternValue.pncounter c) =
      "<pncounter " ++ write_int (pncounter_value c) ++ ">"
  display display_other (ExternValue.gset s) = "<gset [" ++ join (gset_members s) ", " ++ "]>"
  display display_other (ExternValue.lww r) = display_lww r
  display display_other (ExternValue.orset s) = display_orset s
  display display_other (ExternValue.autodoc d) =
      "<autodoc [" ++ join (keys S.automerge d) ", " ++ "]>"
  display display_other (ExternValue.other o) = display_other o
