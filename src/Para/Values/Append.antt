-- ===== src/Para/Values/Append.antt =====
-- Entries that come in the order of their keys are added one after the other.
use para_p2p.Common.{String, lt, ◌≡◌, refl, ap, arith}
use para_p2p.Common.Order.{string_ord, gt_of_lt}
use para_p2p.Crdt.Value.{Entries, CrdtValue}
use para_p2p.Para.Values.{insert_entry}
use para_p2p.Para.Values.Sorted.{IsBefore}

module _ {F64 F32 : Type 0} where
  unfoldable pub IsAfter : Entries F64 F32 → String → Type 0
  IsAfter Entries.end k = Unit
  IsAfter (Entries.entry j w rest) k = (string_ord.cmp j k ≡ lt) × IsAfter rest k

  -- The entries of `es` after those of `acc`.
  unfoldable pub append : Entries F64 F32 → Entries F64 F32 → Entries F64 F32
  append Entries.end es = es
  append (Entries.entry k v rest) es = Entries.entry k v (append rest es)

  -- Each key of `acc` is before each key of `es`.
  unfoldable pub AreApart : Entries F64 F32 → Entries F64 F32 → Type 0
  AreApart acc Entries.end = Unit
  AreApart acc (Entries.entry k v rest) = IsAfter acc k × AreApart acc rest

  pub insert_entry-last :
      (acc : Entries F64 F32) (k : String) (v : CrdtValue F64 F32)
      → IsAfter acc k
      → insert_entry k v acc ≡ append acc (Entries.entry k v Entries.end)
  unfolding insert_entry append IsAfter
  insert_entry-last Entries.end k v h = refl
  insert_entry-last (Entries.entry j w rest) k v (h, a) =
      let e = gt_of_lt j k h in let f = insert_entry-last rest k v a in ground arith

  append-IsAfter :
      (acc : Entries F64 F32) (k j : String) (v : CrdtValue F64 F32)
      → IsAfter acc j
      → string_ord.cmp k j ≡ lt
      → IsAfter (append acc (Entries.entry k v Entries.end)) j
  unfolding append IsAfter
  append-IsAfter Entries.end k j v a h = (h, tt)
  append-IsAfter (Entries.entry i w rest) k j v (b, a) h = (b, append-IsAfter rest k j v a h)

  pub append-AreApart :
      (acc es : Entries F64 F32) (k : String) (v : CrdtValue F64 F32)
      → AreApart acc es
      → IsBefore k es
      → AreApart (append acc (Entries.entry k v Entries.end)) es
  unfolding AreApart
  append-AreApart acc Entries.end k v a b = tt
  append-AreApart acc (Entries.entry j w rest) k v (a, as_rest) (b, bs) =
      (append-IsAfter acc k j v a b, append-AreApart acc rest k v as_rest bs)

  pub append-end : (acc : Entries F64 F32) → append acc Entries.end ≡ acc
  unfolding append
  append-end Entries.end = refl
  append-end (Entries.entry k v rest) = ap (Entries.entry k v) (append-end rest)

  pub append_assoc :
      (acc es : Entries F64 F32) (k : String) (v : CrdtValue F64 F32)
      → append (append acc (Entries.entry k v Entries.end)) es ≡ append acc (Entries.entry k v es)
  unfolding append
  append_assoc Entries.end es k v = refl
  append_assoc (Entries.entry j w rest) es k v = ap (Entries.entry j w) (append_assoc rest es k v)

  pub end-AreApart : (es : Entries F64 F32) → AreApart Entries.end es
  unfolding AreApart IsAfter
  end-AreApart Entries.end = tt
  end-AreApart (Entries.entry k v rest) = (tt, end-AreApart rest)
