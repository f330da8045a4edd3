-- ===== src/Crdt/OrSet/Fresh.antt =====
-- An insertion mints a tag that the state has never seen, as long as the counters have not reached
-- the end of `u64`; so an element can be added again after its removal.
use para_p2p.Common.{◌<◌, ◌≡◌, ◌≢◌, refl, String, true, false, arith, Bool-cases, inl, inr, u64_max}
use para_p2p.Common.Order.{Ord, cmp_refl}
use para_p2p.Crdt.Clock.{Dot, dot_ord, next_after, counter-next_after}
use para_p2p.Crdt.OrSet.{OrSet, highest_counter, insert, remove, contains, merge}
use para_p2p.Crdt.OrSet.Counters.{counter-le_of_observed, counter-le_of_entombed}
use para_p2p.Crdt.OrSet.Laws.{merge-IsValid}
use para_p2p.Crdt.OrSet.Membership.{Keeps, contains_iff, contains-remove_iff}
use para_p2p.Crdt.OrSet.Tags.{
  IsValid, observed, entombed, insert-IsValid, observed-insert, observed-merge, entombed-merge,
}

module _ {ℓ} {V : Type ℓ} ⦃o : Ord V⦄ where
  -- The tag that an insertion by `r` mints.
  abbrev pub minted : OrSet V → String → Dot
  minted s r = next_after (highest_counter s) r

  pub entombed-minted :
      (s : OrSet V) (r : String) → highest_counter s < u64_max → entombed s (minted s r) ≡ false
  entombed-minted s r h = elim (Bool-cases (entombed s (minted s r))) [
    | inl e ↦ absurd (
        omega (
          arith,
          counter-le_of_entombed s (minted s r) e,
          counter-next_after (highest_counter s) r h,
        ))
    | inr e ↦ e
  ]

  observed-minted :
      (s : OrSet V) (r : String) (e : V)
      → highest_counter s < u64_max
      → observed s e (minted s r) ≡ false
  observed-minted s r e h = elim (Bool-cases (observed s e (minted s r))) [
    | inl k ↦ absurd (
        omega (
          arith,
          counter-le_of_observed s e (minted s r) k,
          counter-next_after (highest_counter s) r h,
        ))
    | inr k ↦ k
  ]

  pub entombed-insert :
      (s : OrSet V) (r : String) (e : V) (d : Dot) → entombed (insert s r e) d ≡ entombed s d
  unfolding insert
  entombed-insert s r e d = refl

  observed-insert_self :
      (s : OrSet V) (r : String) (e : V) → observed (insert s r e) e (minted s r) ≡ true
  observed-insert_self s r e =
      ground (arith, observed-insert s r e e (minted s r), cmp_refl e, cmp_refl (minted s r))

  -- An element is a member once it is inserted, also after any number of removals, and it stays one
  -- in a merge with any state that has not entombed the new tag.
  pub contains-merge-insert :
      (s t : OrSet V) (r : String) (e : V)
      → IsValid s
      → IsValid t
      → highest_counter s < u64_max
      → entombed t (minted s r) ≡ false
      → (contains (insert s r e) e ≡ true) × (contains (merge (insert s r e) t) e ≡ true)
  contains-merge-insert s t r e vs vt h unseen =
      let vi : IsValid (insert s r e) = insert-IsValid s r e vs in
      (
        (contains_iff (insert s r e) e vi).1 (
          minted s r,
          (
            observed-insert_self s r e,
            ground (arith, entombed-insert s r e (minted s r), entombed-minted s r h),
          ),
        ),
        (contains_iff (merge (insert s r e) t) e (merge-IsValid (insert s r e) t vi vt)).1 (
          minted s r,
          (
            ground (
              arith,
              observed-merge (insert s r e) t e (minted s r) vt,
              observed-insert_self s r e,
            ),
            ground (
              arith,
              entombed-merge (insert s r e) t (minted s r) vt,
              entombed-insert s r e (minted s r),
              entombed-minted s r h,
            ),
          ),
        ),
      )

  -- No two elements share a tag.
  abbrev pub TagsAreUnique : OrSet V → Type ℓ
  TagsAreUnique s = (e f : V) (d : Dot) → observed s e d ≡ true → observed s f d ≡ true → e ≡ f

  -- If no two elements share a tag, none do after an insertion, as long as the counters have not
  -- reached the end of `u64`.
  pub insert-TagsAreUnique :
      (s : OrSet V) (r : String) (e : V)
      → highest_counter s < u64_max
      → TagsAreUnique s
      → (f g : V) (d : Dot) → observed (insert s r e) f d ≡ true
      → observed (insert s r e) g d ≡ true
      → f ≡ g
  insert-TagsAreUnique s r e h u f g d hf hg = ground (
    arith,
    observed-insert s r e f d,
    observed-insert s r e g d,
    observed-minted s r f h,
    observed-minted s r g h,
    dot_ord.eq_of_cmp d (minted s r),
    o.eq_of_cmp f e,
    o.eq_of_cmp g e,
    u f g d,
  )

  -- Where no two elements share a tag, a removal leaves every other element as it was.
  pub contains-remove_ne :
      (s : OrSet V) (e q : V)
      → IsValid s
      → TagsAreUnique s
      → q ≢ e
      → contains (remove s e) q ≡ contains s q
  contains-remove_ne s e q v u n = elim (Bool-cases (contains s q)) [
    | inl yes_before ↦
        let (d, k) = (contains_iff s q v).0 yes_before in
        rw yes_before ((contains-remove_iff s e q v).1 (d, k, unseen d k.0))
    | inr not_before ↦ elim (Bool-cases (contains (remove s e) q)) [
      | inl after ↦
          let (d, k, _) = (contains-remove_iff s e q v).0 after in
          absurd (cc (not_before, (contains_iff s q v).1 (d, k)))
      | inr after ↦ rw (not_before, after) refl
    ]
  ]
    where
      unseen : (d : Dot) → observed s q d ≡ true → observed s e d ≡ false
      unseen d h = elim (Bool-cases (observed s e d)) [
        | inl k ↦ absurd (n (u q e d h k))
        | inr k ↦ k
      ]

  -- Two elements under one tag, as two insertions by one replica id from one state make them: a
  -- removal of the one removes the other, if all that keeps it is such tags.
  pub contains-remove_shared :
      (s : OrSet V) (e q : V)
      → IsValid s
      → ((d : Dot) → Keeps s q d → observed s e d ≡ true)
      → contains (remove s e) q ≡ false
  contains-remove_shared s e q v shared = elim (Bool-cases (contains (remove s e) q)) [
    | inl h ↦ let (d, k, n) = (contains-remove_iff s e q v).0 h in absurd (cc (n, shared d k))
    | inr h ↦ h
  ]
