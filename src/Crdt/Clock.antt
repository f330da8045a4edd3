-- ===== src/Crdt/Clock.antt =====
-- crates/noeta-crdt/src/clock.rs: `Dot`, a Lamport counter with the replica that stamped it.
use Prim.Native.Nat.Ordering.{eq}
use para_p2p.Common.{ℕ, ◌≡◌, ◌<◌, ◌≤◌, String, Ordering, arith, saturating_add, u64_max}
use para_p2p.Common.Order.{Ord, IsTotal, pair_ord, nat_ord, string_ord, ◌≺◌}

pub record Dot : Type 0 where
  pub counter : ℕ
  pub replica : String

unfoldable pub next_after : ℕ → String → Dot
next_after seen replica = record { counter = saturating_add seen 1; replica = replica }

-- `Dot::default()`.
abbrev pub default : Dot
default = record { counter = 0; replica = "" }

-- The derived order: the counter first, then the replica.
abbrev key : Dot → ℕ × String
key d = (d.counter, d.replica)

unfoldable pub cmp_dot : Dot → Dot → Ordering
cmp_dot a b = pair_ord.cmp (key a) (key b)

eq_of_cmp_dot : (a b : Dot) → cmp_dot a b ≡ eq → a ≡ b
unfolding cmp_dot
eq_of_cmp_dot a b h =
    let e : key a ≡ key b = pair_ord.eq_of_cmp (key a) (key b) h in
    λ i. record { counter = (e i).0; replica = (e i).1 }

pub cmp_dot-IsTotal : IsTotal cmp_dot
unfolding cmp_dot
cmp_dot-IsTotal = record {
  cmp_reverse = λ a b. pair_ord.cmp_reverse (key a) (key b);
  eq_of_cmp = eq_of_cmp_dot;
  lt_trans = λ a b c. pair_ord.lt_trans (key a) (key b) (key c);
}

instance abbrev pub dot_ord : Ord Dot
dot_ord = record { cmp = cmp_dot; total = cmp_dot-IsTotal }

-- A later counter outranks the replica's name.
pub cmp_dot_counter : (a b : Dot) → a.counter < b.counter → a ≺ b
unfolding cmp_dot
cmp_dot_counter a b h = ground arith

-- The next stamp passes everything that was seen, until the counter reaches its end.
pub counter-next_after :
    (seen : ℕ) (r : String) → seen < u64_max → seen < (next_after seen r).counter
unfolding next_after
counter-next_after seen r h = ground arith

-- At one counter the replica's name decides.
pub cmp_dot_replica : (a b : Dot) → a.counter ≡ b.counter → a.replica ≺ b.replica → a ≺ b
unfolding cmp_dot
cmp_dot_replica a b h k = ground arith

-- The end of `u64` is not passed, and not wrapped over.
pub counter-next_after_end :
    (seen : ℕ) (r : String) → u64_max ≤ seen → (next_after seen r).counter ≡ u64_max
unfolding next_after
counter-next_after_end seen r h = ground arith
