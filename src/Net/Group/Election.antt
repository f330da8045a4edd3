-- ===== src/Net/Group/Election.antt =====
-- The election of the creator: every node reads it off the shared list of members.
use mathlib.Core.List.{Memᴰ}
use mathlib.Core.List.Memᴰ.{head, tail}
use para_p2p.Common.{
  ◌≡◌, ◌↔◌, ◌≢◌, refl, sym, ◌∙◌, true, List, [], ◌∷◌, none, some, arith, lt, Option-cases, inl, inr,
  ◌⊎◌,
}
use para_p2p.Common.Order.{Ord, cmp_refl, Ordering-cases, lt_of_gt, gt_of_lt}
use para_p2p.Net.Group.{minimum, is_creator, same}

module _ {ActorId : Type 0} ⦃o : Ord ActorId⦄ where
  pub same_iff : (a b : ActorId) → (same a b ≡ true) ↔ (a ≡ b)
  unfolding same
  same_iff a b = ground (arith, o.eq_of_cmp a b, cmp_refl b)

  -- `m` stands before nobody of the list.
  abbrev pub IsLeast : ActorId → List ActorId → Type 0
  IsLeast m ms = Memᴰ m ms × ((x : ActorId) → Memᴰ x ms → o.cmp x m ≢ lt)

  not_self : (a : ActorId) → o.cmp a a ≢ lt
  not_self a h = cc (h, cmp_refl a)

  -- Two least members of lists with the same members are one.
  IsLeast-same :
      (a b : ActorId) (ms ns : List ActorId)
      → IsLeast a ms
      → IsLeast b ns
      → Memᴰ a ns
      → Memᴰ b ms
      → a ≡ b
  IsLeast-same a b ms ns ha hb an bm = elim (Ordering-cases (o.cmp a b)) [
    | inl less ↦ absurd (hb.1 a an less)
    | inr (inl e) ↦ o.eq_of_cmp a b e
    | inr (inr more) ↦ absurd (ha.1 b bm (lt_of_gt a b more))
  ]

  -- The minimum of a list that is not empty, by the minimum of its tail.
  minimum_cases :
      (n : ActorId) (ms : List ActorId)
      → ((minimum ms ≡ none) × (minimum (n ∷ ms) ≡ some n))
        ⊎ ((l : ActorId) × (minimum ms ≡ some l) × (o.cmp l n ≡ lt) × (minimum (n ∷ ms) ≡ some l))
        ⊎ ((l : ActorId) × (minimum ms ≡ some l) × (o.cmp l n ≢ lt) × (minimum (n ∷ ms) ≡ some n))
  unfolding minimum
  minimum_cases n ms = elim (Option-cases (minimum ms)) [
    | inl e ↦ inl (e, ground arith)
    | inr (l, e) ↦ elim (Ordering-cases (o.cmp l n)) [
      | inl less ↦ inr (inl (l, e, less, ground arith))
      | inr (inl k) ↦ inr (inr (l, e, (λ h. cc (h, k)), ground arith))
      | inr (inr more) ↦ inr (inr (l, e, (λ h. cc (h, more)), ground arith))
    ]
  ]

  nil_of_minimum : (ms : List ActorId) → minimum ms ≡ none → ms ≡ []
  unfolding minimum
  nil_of_minimum [] h = refl
  nil_of_minimum (n ∷ ms) h = elim (minimum_cases n ms) [
    | inl (e, k) ↦ absurd (cc (h, k))
    | inr (inl (l, e, c, k)) ↦ absurd (cc (h, k))
    | inr (inr (l, e, c, k)) ↦ absurd (cc (h, k))
  ]

  none_below : (n x : ActorId) (ms : List ActorId) → ms ≡ [] → Memᴰ x (n ∷ ms) → o.cmp x n ≢ lt
  none_below n x ms e (head k) = λ h. cc (rw k at h, cmp_refl n)
  none_below n x [] e (tail m) = elim m [ ]
  none_below n x (y ∷ ms) e (tail m) = absurd (cc e)

  below_tail :
      (n l x : ActorId) (ms : List ActorId)
      → o.cmp l n ≡ lt
      → ((y : ActorId) → Memᴰ y ms → o.cmp y l ≢ lt)
      → Memᴰ x (n ∷ ms)
      → o.cmp x l ≢ lt
  below_tail n l x ms c h (head k) = λ b. cc (rw k at b, gt_of_lt l n c)
  below_tail n l x ms c h (tail m) = h x m

  below_head :
      (n l x : ActorId) (ms : List ActorId)
      → o.cmp l n ≢ lt
      → ((y : ActorId) → Memᴰ y ms → o.cmp y l ≢ lt)
      → Memᴰ x (n ∷ ms)
      → o.cmp x n ≢ lt
  below_head n l x ms c h (head k) = λ b. cc (rw k at b, cmp_refl n)
  below_head n l x ms c h (tail m) = λ b. elim (Ordering-cases (o.cmp l n)) [
    | inl less ↦ absurd (c less)
    | inr (inl k) ↦ absurd (h x m (rw (o.eq_of_cmp l n k) b))
    | inr (inr more) ↦ absurd (h x m (o.lt_trans x n l b (lt_of_gt l n more)))
  ]

  minimum-IsLeast : (ms : List ActorId) (m : ActorId) → minimum ms ≡ some m → IsLeast m ms
  unfolding minimum
  minimum-IsLeast [] m h = absurd (cc h)
  minimum-IsLeast (n ∷ ms) m h = elim (minimum_cases n ms) [
    | inl (e, k) ↦
        rw (some_inj m n (sym h ∙ k)) (head refl, λ x b. none_below n x ms (nil_of_minimum ms e) b)
    | inr (inl (l, e, c, k)) ↦
        let rest = minimum-IsLeast ms l e in
        rw (some_inj m l (sym h ∙ k)) (tail rest.0, λ x b. below_tail n l x ms c rest.1 b)
    | inr (inr (l, e, c, k)) ↦
        let rest = minimum-IsLeast ms l e in
        rw (some_inj m n (sym h ∙ k)) (head refl, λ x b. below_head n l x ms c rest.1 b)
  ]
    where
      some_inj : (a b : ActorId) → some a ≡ some b → a ≡ b
      some_inj a b e = cc e

  elected_alike :
      (members others : List ActorId) (m me : ActorId)
      → minimum members ≡ some m
      → ((x : ActorId) → Memᴰ x members ↔ Memᴰ x others)
      → (is_creator others me ≡ true) ↔ (me ≡ m)
  unfolding is_creator
  elected_alike members others m me e alike = elim (Option-cases (minimum others)) [
    | inl k ↦ absurd (
        absurd_nil m others (nil_of_minimum others k) ((alike m).0 (minimum-IsLeast members m e).0))
    | inr (l, k) ↦
        let a = minimum-IsLeast members m e in
        let b = minimum-IsLeast others l k in
        let one : m ≡ l = IsLeast-same m l members others a b ((alike m).0 a.0) ((alike l).1 b.0) in
        ground (arith, same_iff l me)
  ]
    where
      absurd_nil : (x : ActorId) (xs : List ActorId) → xs ≡ [] → Memᴰ x xs → ⊥
      absurd_nil x [] h k = elim k [ ]
      absurd_nil x (y ∷ xs) h k = absurd (cc h)

  -- Of members that are not none one is elected: a node takes itself for the creator exactly if it
  -- is that one, and so does a node that has the same members in another order or with repetitions.
  pub is_creator_unique :
      (members others : List ActorId)
      → members ≢ []
      → ((m : ActorId) → Memᴰ m members ↔ Memᴰ m others)
      → (elected : ActorId) × Memᴰ elected members
        × ((me : ActorId)
            → ((is_creator members me ≡ true) ↔ (me ≡ elected))
              × ((is_creator others me ≡ true) ↔ (me ≡ elected)))
  is_creator_unique members others nonempty alike = elim (Option-cases (minimum members)) [
    | inl e ↦ absurd (nonempty (nil_of_minimum members e))
    | inr (m, e) ↦ (
      m,
      (minimum-IsLeast members m e).0,
      λ me. (
        elected_alike members members m me e (λ x. ((λ k. k), (λ k. k))),
        elected_alike members others m me e alike,
      ),
    )
  ]
