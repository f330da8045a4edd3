-- ===== src/Common/HashSet.antt =====
-- `HashSet` of the standard library. Its order is never read, so a set is its membership test.
use mathlib.Core.Bool.{Bool, false, not, ◌&&◌, ◌||◌}
use para_p2p.Common.Order.{Ord}
use para_p2p.Common.BTree.Sets.{is_eq}

abbrev pub HashSet : Type 0 → Type 0
HashSet K = K → Bool

module _ {K : Type 0} where
  abbrev pub empty : HashSet K
  empty k = false

  abbrev pub contains : HashSet K → K → Bool
  contains s k = s k

module _ {K : Type 0} ⦃o : Ord K⦄ where
  abbrev pub insert : K → HashSet K → HashSet K
  insert k s q = is_eq (o.cmp q k) || s q

  abbrev pub remove : K → HashSet K → HashSet K
  remove k s q = not (is_eq (o.cmp q k)) && s q
