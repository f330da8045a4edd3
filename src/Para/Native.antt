-- ===== src/Para/Native.antt =====
-- The values that cross a native call (`NativeValue`, `NativeOut` and `Scalar` of the host's
-- interface), as far as crates/noeta-para-p2p takes them apart or builds them. `E` is what an extern
-- box holds.
use para_p2p.Common.{ℕ, String, Bool, List}
use para_p2p.Common.Int.{ℤ}

pub data Scalar (F64 F32 : Type 0) : Type 0 where
  bool : Bool → Scalar F64 F32
  int : ℤ → Scalar F64 F32
  float : F64 → Scalar F64 F32
  f32 : F32 → Scalar F64 F32

-- An argument. The last four say which type they are of; nothing else of them is read.
mutual
  pub data NativeValue (F64 F32 E : Type 0) : Type 0 where
    unit : NativeValue F64 F32 E
    scalar : Scalar F64 F32 → NativeValue F64 F32 E
    str : String → NativeValue F64 F32 E
    bytes : List ℕ → NativeValue F64 F32 E
    list : NativeItems F64 F32 E → NativeValue F64 F32 E
    map : NativeEntries F64 F32 E → NativeValue F64 F32 E
    extern : E → NativeValue F64 F32 E
    variant : String → NativeValue F64 F32 E
    instance_of : String → NativeValue F64 F32 E
    object : String → NativeValue F64 F32 E
    opaque : String → NativeValue F64 F32 E

  pub data NativeItems (F64 F32 E : Type 0) : Type 0 where
    nil : NativeItems F64 F32 E
    cons : NativeValue F64 F32 E → NativeItems F64 F32 E → NativeItems F64 F32 E

  pub data NativeEntries (F64 F32 E : Type 0) : Type 0 where
    end : NativeEntries F64 F32 E
    entry : String → NativeValue F64 F32 E → NativeEntries F64 F32 E → NativeEntries F64 F32 E

-- A result.
mutual
  pub data NativeOut (F64 F32 E : Type 0) : Type 0 where
    unit : NativeOut F64 F32 E
    scalar : Scalar F64 F32 → NativeOut F64 F32 E
    str : String → NativeOut F64 F32 E
    bytes : List ℕ → NativeOut F64 F32 E
    list : OutItems F64 F32 E → NativeOut F64 F32 E
    map : OutEntries F64 F32 E → NativeOut F64 F32 E
    absent : NativeOut F64 F32 E
    present : NativeOut F64 F32 E → NativeOut F64 F32 E
    extern : E → NativeOut F64 F32 E

  pub data OutItems (F64 F32 E : Type 0) : Type 0 where
    nil : OutItems F64 F32 E
    cons : NativeOut F64 F32 E → OutItems F64 F32 E → OutItems F64 F32 E

  pub data OutEntries (F64 F32 E : Type 0) : Type 0 where
    end : OutEntries F64 F32 E
    entry : String → NativeOut F64 F32 E → OutEntries F64 F32 E → OutEntries F64 F32 E
