-- ===== src/Crdt/Lww/Writes.antt =====
-- Which write a register holds after writes and merges.
use para_p2p.Common.{◌≤◌, ◌<◌, ◌≡◌, refl, ◌∙◌, String, some, arith, u64_max}
use para_p2p.Common.Order.{Ord, ◌≺◌, string_ord}
use para_p2p.Common.Order.Larger.{larger_left, larger_right}
use para_p2p.Crdt.Clock.{next_after, counter-next_after, cmp_dot_replica, dot_ord}
use para_p2p.Crdt.Lww.{LwwRegister, set, get, merge, write_ord, cmp_write_counter, cmp_write_stamp}
use para_p2p.Crdt.Lww.Laws.{merge-eq-larger, merge_cases}

module _ {ℓ} {V : Type ℓ} ⦃o : Ord V⦄ where
  -- A register whose counter is ahead wins, from either side.
  merge_ahead :
      (a b : LwwRegister V) → a.stamp.counter < b.stamp.counter → (merge a b ≡ b) × (merge b a ≡ b)
  merge_ahead a b h = (
    merge-eq-larger a b ∙ larger_right a b (cmp_write_counter a b h),
    merge-eq-larger b a ∙ larger_left b a (cmp_write_counter a b h),
  )

  counter-set :
      (r : LwwRegister V) (s : String) (v : V)
      → r.stamp.counter < u64_max
      → r.stamp.counter < (set r s v).stamp.counter
  unfolding set
  counter-set r s v h = counter-next_after r.stamp.counter s h

  concurrent :
      (r s : String) (v w : V) (a : LwwRegister V) → r ≺ s → (set a r v).stamp ≺ (set a s w).stamp
  unfolding set next_after
  concurrent r s v w a h = cmp_dot_replica (set a r v).stamp (set a s w).stamp refl h

  counter-le-merge : (a b : LwwRegister V) → b.stamp.counter ≤ (merge a b).stamp.counter
  counter-le-merge a b = ground (arith, merge_ahead a b, merge_cases a b)

  -- A write made after a merge is later than everything that the merge saw: it is what every
  -- replica holds, whichever side merges, and whatever the names of the replicas. The counter must
  -- not have reached the end of `u64`.
  pub merge-set_later :
      (a b : LwwRegister V) (s : String) (v : V)
      → (merge b a).stamp.counter < u64_max
      → let c = set (merge b a) s v in (merge a c ≡ c) × (merge c a ≡ c) × (get c ≡ some v)
  unfolding get set
  merge-set_later a b s v h =
      let c = set (merge b a) s v in
      let later : a.stamp.counter < c.stamp.counter =
        omega (arith, counter-set (merge b a) s v h, counter-le-merge b a) in
      let wins = merge_ahead a c later in (wins.0, wins.1, refl)

  merge_stamp : (a b : LwwRegister V) → a.stamp ≺ b.stamp → (merge a b ≡ b) × (merge b a ≡ b)
  merge_stamp a b h = (
    merge-eq-larger a b ∙ larger_right a b (cmp_write_stamp a b h),
    merge-eq-larger b a ∙ larger_left b a (cmp_write_stamp a b h),
  )

  -- Two replicas that write from one state are concurrent: both sides keep the write of the
  -- replica with the greater name.
  merge-set_concurrent :
      (a : LwwRegister V) (r s : String) (v w : V)
      → r ≺ s
      → (merge (set a r v) (set a s w) ≡ set a s w) × (merge (set a s w) (set a r v) ≡ set a s w)
  merge-set_concurrent a r s v w h = merge_stamp (set a r v) (set a s w) (concurrent r s v w a h)
