-- ===== src/Common/BTree/Sets.antt =====
-- Sets: membership after each operation, and the algebra of unions.
use Prim.Native.Nat.Ordering.{eq}
use Prim.Native.Nat.{Ordering}
use mathlib.Core.Path.{◌≡◌, refl}
use mathlib.Core.Bool.{Bool, true, false, ◌||◌}
use mathlib.Core.List.{[]}
use mathlib.Core.Option.{Option, none, some}
use native.Mathlib.Omega.{arith}
use para_p2p.Common.Order.{Ord, cmp_refl}
use para_p2p.Common.BTree.{BTreeSet, get, insert, extend, IsSorted}
use para_p2p.Common.BTree.Lookup.{get-upsert, get-merge_with, merge_with-IsSorted, joined}
use para_p2p.Common.BTree.Extensional.{ext}

abbrev pub is_some {ℓ} : {A : Type ℓ} → Option A → Bool
is_some none = false
is_some (some a) = true

abbrev pub is_eq : Ordering → Bool
is_eq eq = true
is_eq _ = false

same_unit : (x y : Option (Unit {0})) → is_some x ≡ is_some y → x ≡ y
same_unit none none h = refl
same_unit none (some b) h = cc
same_unit (some a) none h = cc
same_unit (some a) (some b) h = refl

joined_some : (x y : Option (Unit {0})) → is_some (joined (λ _ _. tt) x y) ≡ is_some x || is_some y
joined_some none none = refl
joined_some none (some y) = refl
joined_some (some x) none = refl
joined_some (some x) (some y) = refl

module _ {ℓ} {K : Type ℓ} ⦃o : Ord K⦄ where
  abbrev pub contains : K → BTreeSet K → Bool
  contains k s = is_some (get k s)

  -- Sorted sets with the same members are equal.
  pub set_ext :
      (s t : BTreeSet K) → IsSorted s → IsSorted t → ((k : K) → contains k s ≡ contains k t) → s ≡ t
  set_ext s t vs vt h = ext s t vs vt (λ k. same_unit (get k s) (get k t) (h k))

  pub contains-insert :
      (q k : K) (s : BTreeSet K) → contains q (insert k s) ≡ is_eq (o.cmp q k) || contains q s
  contains-insert q k s = ground (arith, get-upsert q k (λ _. tt) s)

  pub contains-insert_self : (k : K) (s : BTreeSet K) → contains k (insert k s) ≡ true
  contains-insert_self k s = ground (arith, contains-insert k k s, cmp_refl k)

  pub contains-extend :
      (q : K) (s t : BTreeSet K)
      → IsSorted t
      → contains q (extend s t) ≡ contains q s || contains q t
  contains-extend q s t vt =
      rw (get-merge_with (λ _ _. tt) q s t vt) (joined_some (get q s) (get q t))

  pub extend-IsSorted : (s t : BTreeSet K) → IsSorted s → IsSorted (extend s t)
  extend-IsSorted s t vs = merge_with-IsSorted (λ _ _. tt) s t vs

  pub extend_comm : (s t : BTreeSet K) → IsSorted s → IsSorted t → extend s t ≡ extend t s
  extend_comm s t vs vt =
      set_ext (extend s t) (extend t s) (extend-IsSorted s t vs) (extend-IsSorted t s vt)
        λ k. ground (arith, contains-extend k s t vt, contains-extend k t s vs)

  pub extend_assoc :
      (s t u : BTreeSet K)
      → IsSorted s
      → IsSorted t
      → IsSorted u
      → extend (extend s t) u ≡ extend s (extend t u)
  extend_assoc s t u vs vt vu =
      set_ext (extend (extend s t) u) (extend s (extend t u))
        (extend-IsSorted (extend s t) u (extend-IsSorted s t vs))
        (extend-IsSorted s (extend t u) vs)
        λ k. ground (
          arith,
          contains-extend k s t vt,
          contains-extend k (extend s t) u vu,
          contains-extend k t u vu,
          contains-extend k s (extend t u) (extend-IsSorted t u vt),
        )

  pub extend_idem : (s : BTreeSet K) → IsSorted s → extend s s ≡ s
  extend_idem s vs =
      set_ext (extend s s) s (extend-IsSorted s s vs) vs
        λ k. ground (arith, contains-extend k s s vs)

  pub contains_nil : (k : K) → contains k [] ≡ false
  unfolding get
  contains_nil k = refl

  pub extend-nil : (s : BTreeSet K) → IsSorted s → extend [] s ≡ s
  extend-nil s vs =
      set_ext (extend [] s) s (extend-IsSorted [] s tt) vs
        λ k. ground (arith, contains-extend k [] s vs, contains_nil k)
