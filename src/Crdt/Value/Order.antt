-- ===== src/Crdt/Value/Order.antt =====
-- The order of values is total, whatever they hold.
use Prim.Native.String.{then}
use mathlib.Core.Path.{ap₂}
use native.Mathlib.Decide.{ℕ_discrete}
use para_p2p.Common.{sym, ◌∙◌, ◌≤◌, ◌<◌, ◌≡◌, ◌≢◌, refl, Ordering, lt, eq, gt, arith, ap}
use para_p2p.Common.Order.{Ord, IsTotal, reverse, nat_ord, string_ord}
use para_p2p.Common.Order.Instances.{bool_ord, int_ord, list_ord}
use para_p2p.Crdt.Value.{
  CrdtValue, Items, Entries, unit, bool, int, float, f32, str, bytes, list, map, nil, cons, end,
  entry, rank, cmp, cmp_items, cmp_entries,
}

then-reverse :
    (o p o' p' : Ordering) → o' ≡ reverse o → p' ≡ reverse p → then o' p' ≡ reverse (then o p)
then-reverse o p o' p' h k = ground arith

then-eq : (o p : Ordering) → then o p ≡ eq → (o ≡ eq) × (p ≡ eq)
then-eq o p h = ground arith

-- Two comparisons in a row, from what holds of each.
then_trans :
    (ab bc ac : Ordering) {xy yz xz : Ordering}
    → (ab ≡ lt → bc ≡ lt → ac ≡ lt)
    → (ab ≡ eq → ac ≡ bc)
    → (bc ≡ eq → ac ≡ ab)
    → (xy ≡ lt → yz ≡ lt → xz ≡ lt)
    → then ab xy ≡ lt
    → then bc yz ≡ lt
    → then ac xz ≡ lt
then_trans lt lt ac f g h t p q = rw (f refl refl) refl
then_trans lt eq ac f g h t p q = rw (h refl) refl
then_trans lt gt ac f g h t p q = cc
then_trans eq bc ac f g h t p q = rw (g refl) (then_trans_rest bc t p q)
  where
    then_trans_rest :
        (o : Ordering) {xy yz xz : Ordering}
        → (xy ≡ lt → yz ≡ lt → xz ≡ lt)
        → xy ≡ lt
        → then o yz ≡ lt
        → then o xz ≡ lt
    then_trans_rest lt t p q = refl
    then_trans_rest eq t p q = t p q
    then_trans_rest gt t p q = cc
then_trans gt bc ac f g h t p q = cc

-- What `then_trans` asks of the first comparison, for any total order.
module _ {A : Type 0} {cmp_a : A → A → Ordering} (o : IsTotal cmp_a) (a b c : A) where
  same_left : cmp_a a b ≡ eq → cmp_a a c ≡ cmp_a b c
  same_left h = ap (λ x. cmp_a x c) (o.eq_of_cmp a b h)

  same_right : cmp_a b c ≡ eq → cmp_a a c ≡ cmp_a a b
  same_right h = ap (cmp_a a) (sym (o.eq_of_cmp b c h))

module _ {F64 F32 : Type 0} ⦃d : Ord F64⦄ ⦃s : Ord F32⦄ where
  mutual
    unfolding cmp

    cmp-reverse : (a b : CrdtValue F64 F32) → cmp b a ≡ reverse (cmp a b)
    cmp-reverse unit unit = refl
    cmp-reverse (bool a) (bool b) = bool_ord.cmp_reverse a b
    cmp-reverse (int a) (int b) = int_ord.cmp_reverse a b
    cmp-reverse (float a) (float b) = d.cmp_reverse a b
    cmp-reverse (f32 a) (f32 b) = s.cmp_reverse a b
    cmp-reverse (str a) (str b) = string_ord.cmp_reverse a b
    cmp-reverse (bytes a) (bytes b) = list_ord.cmp_reverse a b
    cmp-reverse (list a) (list b) = cmp_items-reverse a b
    cmp-reverse (map a) (map b) = cmp_entries-reverse a b
    cmp-reverse a b = refl

    cmp_items-reverse : (a b : Items F64 F32) → cmp_items b a ≡ reverse (cmp_items a b)
    cmp_items-reverse nil nil = refl
    cmp_items-reverse nil (cons _ _) = refl
    cmp_items-reverse (cons _ _) nil = refl
    cmp_items-reverse (cons a xs) (cons b ys) =
        then-reverse (cmp a b) (cmp_items xs ys) (cmp b a) (cmp_items ys xs) (cmp-reverse a b)
          (cmp_items-reverse xs ys)

    cmp_entries-reverse : (a b : Entries F64 F32) → cmp_entries b a ≡ reverse (cmp_entries a b)
    cmp_entries-reverse end end = refl
    cmp_entries-reverse end (entry _ _ _) = refl
    cmp_entries-reverse (entry _ _ _) end = refl
    cmp_entries-reverse (entry k a xs) (entry j b ys) =
        then-reverse (string_ord.cmp k j) (then (cmp a b) (cmp_entries xs ys)) (string_ord.cmp j k)
          (then (cmp b a) (cmp_entries ys xs)) (string_ord.cmp_reverse k j)
          (then-reverse (cmp a b) (cmp_entries xs ys) (cmp b a) (cmp_entries ys xs)
            (cmp-reverse a b) (cmp_entries-reverse xs ys))

  mutual
    unfolding cmp

    eq_of_cmp_value : (a b : CrdtValue F64 F32) → cmp a b ≡ eq → a ≡ b
    eq_of_cmp_value unit unit h = refl
    eq_of_cmp_value (bool a) (bool b) h = ap bool (bool_ord.eq_of_cmp a b h)
    eq_of_cmp_value (int a) (int b) h = ap int (int_ord.eq_of_cmp a b h)
    eq_of_cmp_value (float a) (float b) h = ap float (d.eq_of_cmp a b h)
    eq_of_cmp_value (f32 a) (f32 b) h = ap f32 (s.eq_of_cmp a b h)
    eq_of_cmp_value (str a) (str b) h = ap str (string_ord.eq_of_cmp a b h)
    eq_of_cmp_value (bytes a) (bytes b) h = ap bytes (list_ord.eq_of_cmp a b h)
    eq_of_cmp_value (list a) (list b) h = ap list (eq_of_cmp_items a b h)
    eq_of_cmp_value (map a) (map b) h = ap map (eq_of_cmp_entries a b h)
    eq_of_cmp_value a b h = cc

    eq_of_cmp_items : (a b : Items F64 F32) → cmp_items a b ≡ eq → a ≡ b
    eq_of_cmp_items nil nil h = refl
    eq_of_cmp_items nil (cons _ _) h = cc
    eq_of_cmp_items (cons _ _) nil h = cc
    eq_of_cmp_items (cons a xs) (cons b ys) h =
        let (e, f) = then-eq (cmp a b) (cmp_items xs ys) h in
        ap₂ cons (eq_of_cmp_value a b e) (eq_of_cmp_items xs ys f)

    eq_of_cmp_entries : (a b : Entries F64 F32) → cmp_entries a b ≡ eq → a ≡ b
    eq_of_cmp_entries end end h = refl
    eq_of_cmp_entries end (entry _ _ _) h = cc
    eq_of_cmp_entries (entry _ _ _) end h = cc
    eq_of_cmp_entries (entry k a xs) (entry j b ys) h =
        let (e, f) = then-eq (string_ord.cmp k j) (then (cmp a b) (cmp_entries xs ys)) h in
        let (g, t) = then-eq (cmp a b) (cmp_entries xs ys) f in
        λ i.
          entry (string_ord.eq_of_cmp k j e i) (eq_of_cmp_value a b g i)
            (eq_of_cmp_entries xs ys t i)

  -- Values of two kinds are in the order of their kinds.
  cmp_ranks : (a b : CrdtValue F64 F32) → rank a ≢ rank b → cmp a b ≡ nat_ord.cmp (rank a) (rank b)
  unfolding cmp rank
  cmp_ranks unit unit h = absurd (h refl)
  cmp_ranks (bool a) (bool b) h = absurd (h refl)
  cmp_ranks (int a) (int b) h = absurd (h refl)
  cmp_ranks (float a) (float b) h = absurd (h refl)
  cmp_ranks (f32 a) (f32 b) h = absurd (h refl)
  cmp_ranks (str a) (str b) h = absurd (h refl)
  cmp_ranks (bytes a) (bytes b) h = absurd (h refl)
  cmp_ranks (list a) (list b) h = absurd (h refl)
  cmp_ranks (map a) (map b) h = absurd (h refl)
  cmp_ranks a b h = refl

  cmp_ranks-le : (a b : CrdtValue F64 F32) → cmp a b ≡ lt → rank a ≤ rank b
  cmp_ranks-le a b h = elim (ℕ_discrete (rank a) (rank b)) [
    | yes e ↦ omega arith
    | no n ↦ ground (arith, cmp_ranks a b n)
  ]

  -- Three values that are not all of one kind.
  mixed_trans :
      (a b c : CrdtValue F64 F32)
      → (rank a ≡ rank b → rank b ≡ rank c → ⊥)
      → cmp a b ≡ lt
      → cmp b c ≡ lt
      → cmp a c ≡ lt
  mixed_trans a b c n h k =
      let p = cmp_ranks-le a b h in
      let q = cmp_ranks-le b c k in
      let r : rank a < rank c = elim (ℕ_discrete (rank a) (rank c)) [
        | yes e ↦ absurd (n (omega arith) (omega arith))
        | no f ↦ omega arith
      ] in
      cmp_ranks a c (λ e. omega arith) ∙ ground arith

  mutual
    unfolding cmp rank

    cmp_trans : (a b c : CrdtValue F64 F32) → cmp a b ≡ lt → cmp b c ≡ lt → cmp a c ≡ lt
    cmp_trans unit unit unit h k = h
    cmp_trans (bool a) (bool b) (bool c) h k = bool_ord.lt_trans a b c h k
    cmp_trans (int a) (int b) (int c) h k = int_ord.lt_trans a b c h k
    cmp_trans (float a) (float b) (float c) h k = d.lt_trans a b c h k
    cmp_trans (f32 a) (f32 b) (f32 c) h k = s.lt_trans a b c h k
    cmp_trans (str a) (str b) (str c) h k = string_ord.lt_trans a b c h k
    cmp_trans (bytes a) (bytes b) (bytes c) h k = list_ord.lt_trans a b c h k
    cmp_trans (list a) (list b) (list c) h k = cmp_items_trans a b c h k
    cmp_trans (map a) (map b) (map c) h k = cmp_entries_trans a b c h k
    cmp_trans a b c h k = mixed_trans a b c (λ e f. omega arith) h k

    cmp_items_trans :
        (a b c : Items F64 F32) → cmp_items a b ≡ lt → cmp_items b c ≡ lt → cmp_items a c ≡ lt
    cmp_items_trans nil nil c h k = cc
    cmp_items_trans nil (cons b ys) nil h k = cc
    cmp_items_trans nil (cons b ys) (cons c zs) h k = refl
    cmp_items_trans (cons a xs) nil c h k = cc
    cmp_items_trans (cons a xs) (cons b ys) nil h k = cc
    cmp_items_trans (cons a xs) (cons b ys) (cons c zs) h k =
        then_trans (cmp a b) (cmp b c) (cmp a c) (cmp_trans a b c)
          (λ e. ap (λ x. cmp x c) (eq_of_cmp_value a b e))
          (λ e. ap (cmp a) (sym (eq_of_cmp_value b c e))) (cmp_items_trans xs ys zs) h k

    cmp_entries_trans :
        (a b c : Entries F64 F32)
        → cmp_entries a b ≡ lt
        → cmp_entries b c ≡ lt
        → cmp_entries a c ≡ lt
    cmp_entries_trans end end c h k = cc
    cmp_entries_trans end (entry j b ys) end h k = cc
    cmp_entries_trans end (entry j b ys) (entry l c zs) h k = refl
    cmp_entries_trans (entry i a xs) end c h k = cc
    cmp_entries_trans (entry i a xs) (entry j b ys) end h k = cc
    cmp_entries_trans (entry i a xs) (entry j b ys) (entry l c zs) h k =
        then_trans (string_ord.cmp i j) (string_ord.cmp j l) (string_ord.cmp i l)
          (string_ord.lt_trans i j l) (same_left string_ord.total i j l)
          (same_right string_ord.total i j l)
          (then_trans (cmp a b) (cmp b c) (cmp a c) (cmp_trans a b c)
            (λ e. ap (λ x. cmp x c) (eq_of_cmp_value a b e))
            (λ e. ap (cmp a) (sym (eq_of_cmp_value b c e))) (cmp_entries_trans xs ys zs))
          h k

  -- The order of CRDT values is total, whatever they hold: two values are compared alike from both
  -- sides, values that compare equal are equal, and "less" is transitive, also across values of
  -- different kinds, lists and maps, given that the orders of the two float types are total.
  pub cmp-IsTotal : IsTotal (cmp {F64 = F64} {F32 = F32})
  cmp-IsTotal = record {
    cmp_reverse = cmp-reverse;
    eq_of_cmp = eq_of_cmp_value;
    lt_trans = cmp_trans;
  }

  -- With it, a register and a set can carry values.
  instance abbrev pub value_ord : Ord (CrdtValue F64 F32)
  value_ord = record { cmp = cmp; total = cmp-IsTotal }
