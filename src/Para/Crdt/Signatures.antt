-- ===== src/Para/Crdt/Signatures.antt =====
-- The method tables of crates/noeta-para-p2p/src/crdt.rs and autodoc.rs, which the checker of the
-- language reads: what each function of the
-- module `crdt` and each method takes and gives. A position that takes any value is `any`
-- (`SigType::Dyn`).
use para_p2p.Common.{String, List, [], ◌∷◌}

pub data SigType : Type 0 where
  bool int string bytes any : SigType
  named : String → SigType
  list option optional : SigType → SigType

pub record ExtFn : Type 0 where
  pub name : String
  pub params : List SigType
  pub ret : SigType

abbrev pub method : String → List SigType → SigType → ExtFn
method name params ret = record { name = name; params = params; ret = ret }

abbrev pub crdt_fns : List ExtFn
crdt_fns =
    method "gcounter" [] (SigType.named "GCounter")
    ∷ method "pncounter" [] (SigType.named "PnCounter")
    ∷ method "gset" [] (SigType.named "GSet")
    ∷ method "lww" [] (SigType.named "LwwRegister")
    ∷ method "orset" [] (SigType.named "OrSet")
    ∷ method "automerge" [] (SigType.named "AutoDoc")
    ∷ []

abbrev pub gcounter_methods : List ExtFn
gcounter_methods =
    method "increment" (SigType.string ∷ SigType.optional SigType.int ∷ [])
      (SigType.named "GCounter")
    ∷ method "value" [] SigType.int
    ∷ method "merge" (SigType.named "GCounter" ∷ []) (SigType.named "GCounter")
    ∷ []

abbrev pub pncounter_methods : List ExtFn
pncounter_methods =
    method "increment" (SigType.string ∷ SigType.optional SigType.int ∷ [])
      (SigType.named "PnCounter")
    ∷ method "decrement" (SigType.string ∷ SigType.optional SigType.int ∷ [])
        (SigType.named "PnCounter")
    ∷ method "value" [] SigType.int
    ∷ method "merge" (SigType.named "PnCounter" ∷ []) (SigType.named "PnCounter")
    ∷ []

abbrev pub gset_methods : List ExtFn
gset_methods =
    method "insert" (SigType.string ∷ []) (SigType.named "GSet")
    ∷ method "contains" (SigType.string ∷ []) SigType.bool
    ∷ method "len" [] SigType.int
    ∷ method "members" [] (SigType.list SigType.string)
    ∷ method "merge" (SigType.named "GSet" ∷ []) (SigType.named "GSet")
    ∷ []

abbrev pub lww_methods : List ExtFn
lww_methods =
    method "set" (SigType.string ∷ SigType.any ∷ []) (SigType.named "LwwRegister")
    ∷ method "get" [] (SigType.option SigType.any)
    ∷ method "merge" (SigType.named "LwwRegister" ∷ []) (SigType.named "LwwRegister")
    ∷ []

abbrev pub orset_methods : List ExtFn
orset_methods =
    method "insert" (SigType.string ∷ SigType.any ∷ []) (SigType.named "OrSet")
    ∷ method "remove" (SigType.any ∷ []) (SigType.named "OrSet")
    ∷ method "contains" (SigType.any ∷ []) SigType.bool
    ∷ method "len" [] SigType.int
    ∷ method "members" [] (SigType.list SigType.any)
    ∷ method "merge" (SigType.named "OrSet" ∷ []) (SigType.named "OrSet")
    ∷ []

abbrev pub autodoc_methods : List ExtFn
autodoc_methods =
    method "put" (SigType.string ∷ SigType.string ∷ []) (SigType.named "AutoDoc")
    ∷ method "get" (SigType.string ∷ []) (SigType.option SigType.string)
    ∷ method "remove" (SigType.string ∷ []) (SigType.named "AutoDoc")
    ∷ method "keys" [] (SigType.list SigType.string)
    ∷ method "merge" (SigType.named "AutoDoc" ∷ []) (SigType.named "AutoDoc")
    ∷ method "to_bytes" [] SigType.bytes
    ∷ method "merge_bytes" (SigType.bytes ∷ []) (SigType.named "AutoDoc")
    ∷ []
