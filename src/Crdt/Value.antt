-- ===== src/Crdt/Value.antt =====
-- `CrdtValue` of crates/noeta-crdt/src/value.rs: the data that a register or a set carries, and its
-- total order. A float is whatever has the order of `total_cmp`.
pub mod Order
pub mod Display
mod Tests
use para_p2p.Common.{ℕ, String, Bool, true, false, List, [], ◌∷◌, Ordering, lt, eq, gt}
use para_p2p.Common.Int.{ℤ}
use para_p2p.Common.Order.{Ord, nat_ord, string_ord}
use para_p2p.Common.Order.Instances.{bool_ord, int_ord, list_ord}
use Prim.Native.String.{then}

-- `Vec<CrdtValue>` and `BTreeMap<String, CrdtValue>`, the latter with its entries in the order of
-- their keys.
mutual
  pub data CrdtValue (F64 F32 : Type 0) : Type 0 where
    unit : CrdtValue F64 F32
    bool : Bool → CrdtValue F64 F32
    int : ℤ → CrdtValue F64 F32
    float : F64 → CrdtValue F64 F32
    f32 : F32 → CrdtValue F64 F32
    str : String → CrdtValue F64 F32
    bytes : List ℕ → CrdtValue F64 F32
    list : Items F64 F32 → CrdtValue F64 F32
    map : Entries F64 F32 → CrdtValue F64 F32

  pub data Items (F64 F32 : Type 0) : Type 0 where
    nil : Items F64 F32
    cons : CrdtValue F64 F32 → Items F64 F32 → Items F64 F32

  pub data Entries (F64 F32 : Type 0) : Type 0 where
    end : Entries F64 F32
    entry : String → CrdtValue F64 F32 → Entries F64 F32 → Entries F64 F32

module _ {F64 F32 : Type 0} where
  unfoldable pub rank : CrdtValue F64 F32 → ℕ
  rank unit = 0
  rank (bool _) = 1
  rank (int _) = 2
  rank (float _) = 3
  rank (f32 _) = 4
  rank (str _) = 5
  rank (bytes _) = 6
  rank (list _) = 7
  rank (map _) = 8

module _ {F64 F32 : Type 0} ⦃d : Ord F64⦄ ⦃s : Ord F32⦄ where
  unfoldable mutual
    unfolding rank

    -- `Ord::cmp`
    pub cmp : CrdtValue F64 F32 → CrdtValue F64 F32 → Ordering
    cmp unit unit = eq
    cmp (bool a) (bool b) = bool_ord.cmp a b
    cmp (int a) (int b) = int_ord.cmp a b
    cmp (float a) (float b) = d.cmp a b
    cmp (f32 a) (f32 b) = s.cmp a b
    cmp (str a) (str b) = string_ord.cmp a b
    cmp (bytes a) (bytes b) = list_ord.cmp a b
    cmp (list a) (list b) = cmp_items a b
    cmp (map a) (map b) = cmp_entries a b
    cmp a b = nat_ord.cmp (rank a) (rank b)

    pub cmp_items : Items F64 F32 → Items F64 F32 → Ordering
    cmp_items nil nil = eq
    cmp_items nil (cons _ _) = lt
    cmp_items (cons _ _) nil = gt
    cmp_items (cons a xs) (cons b ys) = then (cmp a b) (cmp_items xs ys)

    pub cmp_entries : Entries F64 F32 → Entries F64 F32 → Ordering
    cmp_entries end end = eq
    cmp_entries end (entry _ _ _) = lt
    cmp_entries (entry _ _ _) end = gt
    cmp_entries (entry k a xs) (entry j b ys) =
        then (string_ord.cmp k j) (then (cmp a b) (cmp_entries xs ys))
