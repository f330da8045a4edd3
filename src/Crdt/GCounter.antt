-- ===== src/Crdt/GCounter.antt =====
-- `GCounter` of crates/noeta-crdt/src/lib.rs: a count for each replica, which only grows.
pub mod Laws
pub mod Value
pub mod Replay
use para_p2p.Common.{ℕ, max, String, [], foldl, saturating_add, unwrap_or}
use para_p2p.Common.BTree.{BTreeMap, upsert, merge_with, values}
use para_p2p.Common.Order.{string_ord}

pub record GCounter : Type 0 where
  pub counts : BTreeMap String ℕ

unfoldable pub new : GCounter
new = record { counts = [] }

unfoldable pub increment : GCounter → String → ℕ → GCounter
increment c replica by = record {
  counts = upsert replica (λ slot. saturating_add (unwrap_or slot 0) by) c.counts;
}

-- The saturating sum of the counts.
unfoldable pub value : GCounter → ℕ
value c = foldl saturating_add 0 (values c.counts)

unfoldable pub merge : GCounter → GCounter → GCounter
merge c other = record {
  counts = merge_with (λ slot count. max (unwrap_or slot 0) count) c.counts other.counts;
}
