-- ===== src/Crdt/Equality.antt =====
-- The equality that the types of crates/noeta-crdt derive, and that it is exact.
use para_p2p.Common.{
  ℕ, String, Bool, true, false, ◌&&◌, [], ◌∷◌, Option, none, some, ◌≡◌, refl, arith,
}
use para_p2p.Common.BTree.{BTreeMap, BTreeSet}
use para_p2p.Common.BTree.Sets.{is_eq}
use para_p2p.Common.Order.{Ord, cmp_refl, nat_ord, string_ord}
use para_p2p.Crdt.Clock.{Dot}
use para_p2p.Crdt.GCounter.{GCounter}
use para_p2p.Crdt.GSet.{GSet}
use para_p2p.Crdt.Lww.{LwwRegister}
use para_p2p.Crdt.OrSet.{OrSet}
use para_p2p.Crdt.PnCounter.{PnCounter}

-- A test that is true of equal values only, and of all of them.
pub record IsExact {A : Type 0} (test : A → A → Bool) : Type 0 where
  pub to_eq : (a b : A) → test a b ≡ true → a ≡ b
  pub test_refl : (a : A) → test a a ≡ true

and_both : (a b : Bool) → a && b ≡ true → (a ≡ true) × (b ≡ true)
and_both a b h = ground arith

and_true : (a b : Bool) → a ≡ true → b ≡ true → a && b ≡ true
and_true a b h k = ground arith

module _ {A : Type 0} ⦃o : Ord A⦄ where
  -- An equality that agrees with the order.
  unfoldable pub eq_by : A → A → Bool
  eq_by a b = is_eq (o.cmp a b)

  pub eq_by-IsExact : IsExact eq_by
  unfolding eq_by
  eq_by-IsExact = record {
    to_eq = λ a b h. ground (arith, o.eq_of_cmp a b);
    test_refl = λ a. ground (arith, cmp_refl a);
  }

module _ {K V : Type 0} (eq_key : K → K → Bool) (eq_value : V → V → Bool) where
  unfoldable pub eq_map : BTreeMap K V → BTreeMap K V → Bool
  eq_map [] [] = true
  eq_map ((k, v) ∷ a) ((j, w) ∷ b) = eq_key k j && (eq_value v w && eq_map a b)
  eq_map _ _ = false

  pub eq_map-IsExact : IsExact eq_key → IsExact eq_value → IsExact eq_map
  unfolding eq_map
  eq_map-IsExact x y = record { to_eq = to_eq; test_refl = test_refl }
    where
      to_eq : (a b : BTreeMap K V) → eq_map a b ≡ true → a ≡ b
      to_eq [] [] h = refl
      to_eq [] ((j, w) ∷ b) h = cc
      to_eq ((k, v) ∷ a) [] h = cc
      to_eq ((k, v) ∷ a) ((j, w) ∷ b) h =
          let (p, q) = and_both (eq_key k j) (eq_value v w && eq_map a b) h in
          let (r, s) = and_both (eq_value v w) (eq_map a b) q in
          let e = x.to_eq k j p in
          let f = y.to_eq v w r in let g = to_eq a b s in λ i. (e i, f i) ∷ g i

      test_refl : (a : BTreeMap K V) → eq_map a a ≡ true
      test_refl [] = refl
      test_refl ((k, v) ∷ a) =
          and_true (eq_key k k) (eq_value v v && eq_map a a) (x.test_refl k)
            (and_true (eq_value v v) (eq_map a a) (y.test_refl v) (test_refl a))

-- `BTreeSet`
abbrev pub eq_set : {K : Type 0} → (K → K → Bool) → BTreeSet K → BTreeSet K → Bool
eq_set eq_key = eq_map eq_key (λ u v. true)

eq_set-IsExact : {K : Type 0} (eq_key : K → K → Bool) → IsExact eq_key → IsExact (eq_set eq_key)
eq_set-IsExact eq_key x =
    eq_map-IsExact eq_key (λ u v. true) x (record { to_eq = λ u v h. refl; test_refl = λ u. refl })

unfoldable pub eq_gcounter : GCounter → GCounter → Bool
unfolding eq_by
eq_gcounter a b = eq_map (eq_by {A = String}) (eq_by {A = ℕ}) a.counts b.counts

pub eq_gcounter-IsExact : IsExact eq_gcounter
unfolding eq_gcounter
eq_gcounter-IsExact =
    let x = eq_map-IsExact (eq_by {A = String}) (eq_by {A = ℕ}) eq_by-IsExact eq_by-IsExact in
    record {
      to_eq = λ a b h. let e = x.to_eq a.counts b.counts h in λ i. record { counts = e i };
      test_refl = λ a. x.test_refl a.counts;
    }

unfoldable pub eq_pncounter : PnCounter → PnCounter → Bool
unfolding eq_gcounter
eq_pncounter a b = eq_gcounter a.positive b.positive && eq_gcounter a.negative b.negative

pub eq_pncounter-IsExact : IsExact eq_pncounter
unfolding eq_pncounter
eq_pncounter-IsExact =
    let x = eq_gcounter-IsExact in
    record {
      to_eq = λ a b h.
          let (p, q) =
            and_both (eq_gcounter a.positive b.positive) (eq_gcounter a.negative b.negative) h in
          let e = x.to_eq a.positive b.positive p in
          let f = x.to_eq a.negative b.negative q in λ i. record { positive = e i; negative = f i };
      test_refl = λ a.
          and_true (eq_gcounter a.positive a.positive) (eq_gcounter a.negative a.negative)
            (x.test_refl a.positive) (x.test_refl a.negative);
    }

unfoldable pub eq_gset : GSet → GSet → Bool
unfolding eq_by
eq_gset a b = eq_set (eq_by {A = String}) a.members b.members

pub eq_gset-IsExact : IsExact eq_gset
unfolding eq_gset
eq_gset-IsExact =
    let x = eq_set-IsExact (eq_by {A = String}) eq_by-IsExact in
    record {
      to_eq = λ a b h. let e = x.to_eq a.members b.members h in λ i. record { members = e i };
      test_refl = λ a. x.test_refl a.members;
    }

unfoldable pub eq_dot : Dot → Dot → Bool
unfolding eq_by
eq_dot a b = eq_by a.counter b.counter && eq_by a.replica b.replica

pub eq_dot-IsExact : IsExact eq_dot
unfolding eq_dot
eq_dot-IsExact =
    let x = eq_by-IsExact {A = ℕ} in
    let y = eq_by-IsExact {A = String} in
    record {
      to_eq = λ a b h.
          let (p, q) = and_both (eq_by a.counter b.counter) (eq_by a.replica b.replica) h in
          let e = x.to_eq a.counter b.counter p in
          let f = y.to_eq a.replica b.replica q in λ i. record { counter = e i; replica = f i };
      test_refl = λ a.
          and_true (eq_by a.counter a.counter) (eq_by a.replica a.replica) (x.test_refl a.counter)
            (y.test_refl a.replica);
    }

module _ {V : Type 0} ⦃o : Ord V⦄ where
  unfoldable pub eq_option : Option V → Option V → Bool
  unfolding eq_by
  eq_option none none = true
  eq_option (some v) (some w) = eq_by v w
  eq_option _ _ = false

  eq_option-IsExact : IsExact eq_option
  unfolding eq_option
  eq_option-IsExact = record { to_eq = to_eq; test_refl = test_refl }
    where
      to_eq : (a b : Option V) → eq_option a b ≡ true → a ≡ b
      to_eq none none h = refl
      to_eq (some v) (some w) h = let e = eq_by-IsExact.to_eq v w h in λ i. some (e i)
      to_eq none (some w) h = cc
      to_eq (some v) none h = cc

      test_refl : (a : Option V) → eq_option a a ≡ true
      test_refl none = refl
      test_refl (some v) = eq_by-IsExact.test_refl v

  unfoldable pub eq_lww : LwwRegister V → LwwRegister V → Bool
  unfolding eq_dot eq_option
  eq_lww a b = eq_dot a.stamp b.stamp && eq_option a.value b.value

  pub eq_lww-IsExact : IsExact eq_lww
  unfolding eq_lww
  eq_lww-IsExact =
      let x = eq_dot-IsExact in
      let y = eq_option-IsExact in
      record {
        to_eq = λ a b h.
            let (p, q) = and_both (eq_dot a.stamp b.stamp) (eq_option a.value b.value) h in
            let e = x.to_eq a.stamp b.stamp p in
            let f = y.to_eq a.value b.value q in λ i. record { stamp = e i; value = f i };
        test_refl = λ a.
            and_true (eq_dot a.stamp a.stamp) (eq_option a.value a.value) (x.test_refl a.stamp)
              (y.test_refl a.value);
      }

  unfoldable pub eq_orset : OrSet V → OrSet V → Bool
  unfolding eq_by eq_dot
  eq_orset a b =
      eq_map (eq_by {A = V}) (eq_set eq_dot) a.adds b.adds && eq_set eq_dot a.removed b.removed

  pub eq_orset-IsExact : IsExact eq_orset
  unfolding eq_orset
  eq_orset-IsExact =
      let y = eq_set-IsExact eq_dot eq_dot-IsExact in
      let x = eq_map-IsExact (eq_by {A = V}) (eq_set eq_dot) eq_by-IsExact y in
      record {
        to_eq = λ a b h.
            let (p, q) =
              and_both (eq_map (eq_by {A = V}) (eq_set eq_dot) a.adds b.adds)
                (eq_set eq_dot a.removed b.removed) h in
            let e = x.to_eq a.adds b.adds p in
            let f = y.to_eq a.removed b.removed q in λ i. record { adds = e i; removed = f i };
        test_refl = λ a.
            and_true (eq_map (eq_by {A = V}) (eq_set eq_dot) a.adds a.adds)
              (eq_set eq_dot a.removed a.removed) (x.test_refl a.adds) (y.test_refl a.removed);
      }
