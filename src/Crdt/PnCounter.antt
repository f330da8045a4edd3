-- ===== src/Crdt/PnCounter.antt =====
-- `PnCounter` of crates/noeta-crdt/src/lib.rs: increments and decrements, each a `GCounter`.
pub mod Laws
use para_p2p.Common.{ℕ, String}
use para_p2p.Common.Int.{ℤ, sub_ℕ, clamp, i64_min, i64_max}
use para_p2p.Crdt.GCounter
use para_p2p.Crdt.GCounter.{GCounter}

pub record PnCounter : Type 0 where
  pub positive : GCounter
  pub negative : GCounter

unfoldable pub new : PnCounter
new = record { positive = GCounter.new; negative = GCounter.new }

unfoldable pub increment : PnCounter → String → ℕ → PnCounter
increment c replica by = record {
  positive = GCounter.increment c.positive replica by;
  negative = c.negative;
}

unfoldable pub decrement : PnCounter → String → ℕ → PnCounter
decrement c replica by = record {
  positive = c.positive;
  negative = GCounter.increment c.negative replica by;
}

-- The difference is exact, and is cut off at the ends of `i64`.
unfoldable pub value : PnCounter → ℤ
value c = clamp i64_min i64_max (sub_ℕ (GCounter.value c.positive) (GCounter.value c.negative))

unfoldable pub merge : PnCounter → PnCounter → PnCounter
merge c other = record {
  positive = GCounter.merge c.positive other.positive;
  negative = GCounter.merge c.negative other.negative;
}
