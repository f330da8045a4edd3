-- ===== src/Crdt/Lww.antt =====
-- crates/noeta-crdt/src/lww.rs: a register of one value, which the later write holds.
pub mod Laws
pub mod Writes
use Prim.Native.Nat.Ordering.{lt, eq, gt}
use para_p2p.Common.{String, Option, none, some, Ordering, ◌≡◌, ◌<◌, arith}
use para_p2p.Common.Order.{Ord, ◌≺◌, IsTotal, pair_ord, option_ord}
use para_p2p.Crdt.Clock.{Dot, default, next_after, dot_ord, cmp_dot_counter}

pub record LwwRegister {ℓ} (V : Type ℓ) : Type ℓ where
  pub stamp : Dot
  pub value : Option V

module _ {ℓ} {V : Type ℓ} where
  unfoldable pub new : LwwRegister V
  new = record { stamp = default; value = none }

  unfoldable pub set : LwwRegister V → String → V → LwwRegister V
  set r replica value = record { stamp = next_after r.stamp.counter replica; value = some value }

  unfoldable pub get : LwwRegister V → Option V
  get r = r.value

module _ {ℓ} {V : Type ℓ} ⦃o : Ord V⦄ where
  abbrev write : LwwRegister V → Dot × Option V
  write r = (r.stamp, r.value)

  -- The order of writes: by stamp, then by value.
  unfoldable pub cmp_write : LwwRegister V → LwwRegister V → Ordering
  cmp_write a b = pair_ord.cmp (write a) (write b)

  eq_of_cmp_write : (a b : LwwRegister V) → cmp_write a b ≡ eq → a ≡ b
  unfolding cmp_write
  eq_of_cmp_write a b h =
      let e : write a ≡ write b = pair_ord.eq_of_cmp (write a) (write b) h in
      λ i. record { stamp = (e i).0; value = (e i).1 }

  pub cmp_write-IsTotal : IsTotal cmp_write
  unfolding cmp_write
  cmp_write-IsTotal = record {
    cmp_reverse = λ a b. pair_ord.cmp_reverse (write a) (write b);
    eq_of_cmp = eq_of_cmp_write;
    lt_trans = λ a b c. pair_ord.lt_trans (write a) (write b) (write c);
  }

  instance abbrev pub write_ord : Ord (LwwRegister V)
  write_ord = record { cmp = cmp_write; total = cmp_write-IsTotal }

  -- `if (&other.stamp, &other.value) > (&self.stamp, &self.value)`
  unfoldable pub merge : LwwRegister V → LwwRegister V → LwwRegister V
  merge r other = elim (cmp_write other r) [ gt ↦ other | _ ↦ r ]

  pub cmp_write_counter :
      (a b : LwwRegister V) → a.stamp.counter < b.stamp.counter → cmp_write a b ≡ lt
  unfolding cmp_write
  cmp_write_counter a b h = ground (arith, cmp_dot_counter a.stamp b.stamp h)

  pub cmp_write_stamp : (a b : LwwRegister V) → a.stamp ≺ b.stamp → cmp_write a b ≡ lt
  unfolding cmp_write
  cmp_write_stamp a b h = ground arith
