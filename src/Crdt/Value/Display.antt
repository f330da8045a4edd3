-- ===== src/Crdt/Value/Display.antt =====
-- `Display` of CrdtValue and `write_float`, of crates/noeta-crdt/src/value.rs. A `Formatter` is the
-- text that is written to it, and how a float is written is up to its type.
use para_p2p.Common.{String, Bool, ◌&&◌, if◌then◌else◌, length}
use para_p2p.Common.Int.{pos}
use para_p2p.Common.Text.{write_int}
use para_p2p.Crdt.Value.{CrdtValue, Items, Entries}
use Prim.Native.String.{◌++◌}

-- What the code asks of its floats.
pub record FloatText (F64 F32 : Type 0) : Type 0 where
  pub is_finite : F64 → Bool
  pub fract : F64 → F64
  pub is_zero : F64 → Bool
  -- `{x:.1}` and `{x}`
  pub one_decimal : F64 → String
  pub shortest : F64 → String
  -- `f64::from`
  pub widen : F32 → F64

module _ {F64 F32 : Type 0} (T : FloatText F64 F32) where
  unfoldable pub write_float : F64 → String
  write_float x = if T.is_finite x && T.is_zero (T.fract x) then T.one_decimal x else T.shortest x

  unfoldable mutual
    unfolding write_float write_int

    -- `Display::fmt`
    pub write : CrdtValue F64 F32 → String
    write CrdtValue.unit = "unit"
    write (CrdtValue.bool b) = if b then "true" else "false"
    write (CrdtValue.int n) = write_int n
    write (CrdtValue.float x) = write_float x
    write (CrdtValue.f32 x) = write_float (T.widen x)
    write (CrdtValue.str s) = "\"" ++ s ++ "\""
    write (CrdtValue.bytes b) = "<" ++ write_int (pos (length b)) ++ " bytes>"
    write (CrdtValue.list items) = "[" ++ write_items "" items ++ "]"
    write (CrdtValue.map entries) = "{" ++ write_entries "" entries ++ "}"

    -- The loops over a list and over a map, with what stands before the next of them.
    write_items : String → Items F64 F32 → String
    write_items before Items.nil = ""
    write_items before (Items.cons item items) = before ++ write item ++ write_items ", " items

    write_entries : String → Entries F64 F32 → String
    write_entries before Entries.end = ""
    write_entries before (Entries.entry key value entries) =
        before ++ key ++ ": " ++ write value ++ write_entries ", " entries
