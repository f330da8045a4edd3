-- ===== src/Crdt/OrSet/Counters.antt =====
-- The counters of the tags of an `OrSet`, of which `highest_counter` is the highest.
use mathlib.Core.List.{Memᴰ}
use mathlib.Core.List.Memᴰ.{head, tail}
use para_p2p.Common.{
  ℕ, ◌≤◌, ◌≡◌, refl, ap, true, List, [], ◌∷◌, ◌++◌, some, arith, map, maximum, unwrap_or,
  Option-cases, inl, inr, sym, ◌⊎◌,
}
use para_p2p.Common.Order.{Ord, Ordering-cases}
use para_p2p.Common.BTree.{BTreeMap, BTreeSet, IsSorted, get, keys, values}
use para_p2p.Common.BTree.Keys.{Memᴰ-keys_of_get, get_of_Memᴰ-keys, get_of_Memᴰ-values}
use para_p2p.Common.BTree.Sets
use para_p2p.Common.BTree.Sets.{is_eq, contains_nil}
use para_p2p.Crdt.Clock.{Dot, dot_ord}
use para_p2p.Crdt.OrSet.{OrSet, counters, all_counters, highest_counter, tags_of}
use para_p2p.Crdt.OrSet.Tags.{IsValid, observed, entombed}

le-maximum : (n : ℕ) (xs : List ℕ) → Memᴰ n xs → n ≤ unwrap_or (maximum xs) 0
le-maximum n [] m = elim m [ ]
le-maximum n (x ∷ xs) (head e) = omega arith
le-maximum n (x ∷ xs) (tail m) = omega (arith, le-maximum n xs m)

module _ {ℓ} {A : Type ℓ} where
  Memᴰ-append_left : (x : A) (xs ys : List A) → Memᴰ x xs → Memᴰ x (xs ++ ys)
  Memᴰ-append_left x [] ys m = elim m [ ]
  Memᴰ-append_left x (z ∷ xs) ys (head e) = head e
  Memᴰ-append_left x (z ∷ xs) ys (tail m) = tail (Memᴰ-append_left x xs ys m)

  Memᴰ-append_right : (x : A) (xs ys : List A) → Memᴰ x ys → Memᴰ x (xs ++ ys)
  Memᴰ-append_right x [] ys m = m
  Memᴰ-append_right x (z ∷ xs) ys m = tail (Memᴰ-append_right x xs ys m)

Memᴰ-counters_of_keys :
    (d : Dot) (ds : List Dot) → Memᴰ d ds → Memᴰ d.counter (map (λ t. t.counter) ds)
Memᴰ-counters_of_keys d [] m = elim m [ ]
Memᴰ-counters_of_keys d (t ∷ ds) (head e) = head (ap (λ x. x.counter) e)
Memᴰ-counters_of_keys d (t ∷ ds) (tail m) = tail (Memᴰ-counters_of_keys d ds m)

Memᴰ-counters :
    (d : Dot) (tags : BTreeSet Dot) → Sets.contains d tags ≡ true → Memᴰ d.counter (counters tags)
unfolding counters
Memᴰ-counters d tags h = elim (Option-cases (get d tags)) [
  | inl e ↦ absurd (ground arith)
  | inr (u, e) ↦ Memᴰ-counters_of_keys d (keys tags) (Memᴰ-keys_of_get d u tags e)
]

Memᴰ-all_counters :
    (n : ℕ) (tags : BTreeSet Dot) (all : List (BTreeSet Dot))
    → Memᴰ tags all
    → Memᴰ n (counters tags)
    → Memᴰ n (all_counters all)
unfolding all_counters
Memᴰ-all_counters n tags [] m h = elim m [ ]
Memᴰ-all_counters n tags (t ∷ all) (head e) h = Memᴰ-append_left n (counters t) _ (rw e at h)
Memᴰ-all_counters n tags (t ∷ all) (tail m) h =
    Memᴰ-append_right n (counters t) (all_counters all) (Memᴰ-all_counters n tags all m h)

Memᴰ-values {ℓ κ} :
    {K : Type ℓ} {V : Type κ} ⦃o : Ord K⦄ (k : K) (v : V) (m : BTreeMap K V)
    → get k m ≡ some v
    → Memᴰ v (values m)
unfolding get values
Memᴰ-values k v [] h = absurd (cc h)
Memᴰ-values ⦃o⦄ k v ((j, w) ∷ m) h = elim (Ordering-cases (o.cmp k j)) [
  | inl less ↦ absurd (ground arith)
  | inr (inl same) ↦ head (ground arith)
  | inr (inr more) ↦ tail (Memᴰ-values k v m (ground arith))
]

maximum-le : (n : ℕ) (xs : List ℕ) → ((m : ℕ) → Memᴰ m xs → m ≤ n) → unwrap_or (maximum xs) 0 ≤ n
maximum-le n [] h = omega arith
maximum-le n (x ∷ xs) h =
    let rest = maximum-le n xs (λ m k. h m (tail k)) in
    let first : x ≤ n = h x (head refl) in ground arith

Memᴰ-append-cases {ℓ} :
    {A : Type ℓ} (x : A) (xs ys : List A) → Memᴰ x (xs ++ ys) → Memᴰ x xs ⊎ Memᴰ x ys
Memᴰ-append-cases x [] ys m = inr m
Memᴰ-append-cases x (z ∷ xs) ys (head e) = inl (head e)
Memᴰ-append-cases x (z ∷ xs) ys (tail m) = elim (Memᴰ-append-cases x xs ys m) [
  | inl k ↦ inl (tail k)
  | inr k ↦ inr k
]

-- Every counter in the lists is that of a tag.
of_Memᴰ-map :
    (n : ℕ) (ds : List Dot)
    → Memᴰ n (map (λ t. t.counter) ds)
    → (d : Dot) × Memᴰ d ds × (d.counter ≡ n)
of_Memᴰ-map n [] m = elim m [ ]
of_Memᴰ-map n (t ∷ ds) (head e) = (t, head refl, sym e)
of_Memᴰ-map n (t ∷ ds) (tail m) = let (d, k, e) = of_Memᴰ-map n ds m in (d, tail k, e)

of_Memᴰ-counters :
    (n : ℕ) (tags : BTreeSet Dot)
    → IsSorted tags
    → Memᴰ n (counters tags)
    → (d : Dot) × (Sets.contains d tags ≡ true) × (d.counter ≡ n)
unfolding counters
of_Memᴰ-counters n tags v m =
    let (d, k, e) = of_Memᴰ-map n (keys tags) m in
    let (u, g) = get_of_Memᴰ-keys d tags v k in (d, ground arith, e)

of_Memᴰ-all_counters :
    (n : ℕ) (all : List (BTreeSet Dot))
    → Memᴰ n (all_counters all)
    → (tags : BTreeSet Dot) × Memᴰ tags all × Memᴰ n (counters tags)
unfolding all_counters
of_Memᴰ-all_counters n [] m = elim m [ ]
of_Memᴰ-all_counters n (t ∷ all) m = elim (Memᴰ-append-cases n (counters t) _ m) [
  | inl k ↦ (t, head refl, k)
  | inr k ↦ let (tags, o, c) = of_Memᴰ-all_counters n all k in (tags, tail o, c)
]

module _ {ℓ} {V : Type ℓ} ⦃o : Ord V⦄ where
  pub counter-le_of_entombed :
      (s : OrSet V) (d : Dot) → entombed s d ≡ true → d.counter ≤ highest_counter s
  unfolding highest_counter
  counter-le_of_entombed s d h =
      le-maximum d.counter (all_counters (values s.adds) ++ counters s.removed) (
        Memᴰ-append_right d.counter (all_counters (values s.adds)) (counters s.removed)
          (Memᴰ-counters d s.removed h))

  pub counter-le_of_observed :
      (s : OrSet V) (e : V) (d : Dot) → observed s e d ≡ true → d.counter ≤ highest_counter s
  unfolding highest_counter tags_of
  counter-le_of_observed s e d h = elim (Option-cases (get e s.adds)) [
    | inl n ↦ absurd (ground (arith, contains_nil d))
    | inr (tags, f) ↦ le-maximum d.counter (all_counters (values s.adds) ++ counters s.removed) (
        Memᴰ-append_left d.counter (all_counters (values s.adds)) (counters s.removed) (
          Memᴰ-all_counters d.counter tags (values s.adds) (Memᴰ-values e tags s.adds f)
            (Memᴰ-counters d tags (ground arith))))
  ]

  -- A bound on the counters of the tags bounds the highest of them.
  pub highest_counter-le :
      (s : OrSet V) (n : ℕ)
      → IsValid s
      → ((e : V) (d : Dot) → observed s e d ≡ true → d.counter ≤ n)
      → ((d : Dot) → entombed s d ≡ true → d.counter ≤ n)
      → highest_counter s ≤ n
  unfolding highest_counter tags_of
  highest_counter-le s n v seen buried = maximum-le n _ each
    where
      each : (m : ℕ) → Memᴰ m (all_counters (values s.adds) ++ counters s.removed) → m ≤ n
      each m k = elim (Memᴰ-append-cases m (all_counters (values s.adds)) _ k) [
        | inl a ↦
            let (tags, at, c) = of_Memᴰ-all_counters m (values s.adds) a in
            let (e, g) = get_of_Memᴰ-values tags s.adds v.sorted at in
            let (d, h, i) = of_Memᴰ-counters m tags (rw g at (v.tags_sorted e)) c in
            omega (arith, i, seen e d (rw g h))
        | inr b ↦
            let (d, h, i) = of_Memᴰ-counters m s.removed v.removed_sorted b in
            omega (arith, i, buried d h)
      ]
