-- ===== src/Crdt/OrSet/Edits.antt =====
-- Sequences of insertions and removals on one state, beside the same edits on a plain set.
use para_p2p.Common.{
  ℕ, ◌+◌, ◌≤◌, ◌<◌, ◌≡◌, ◌≢◌, refl, String, Bool, true, false, not, ap, sym, ◌∙◌, ◌&&◌, ◌||◌, List,
  [], ◌∷◌, arith, length, Bool-cases, inl, inr, u64_max,
}
use para_p2p.Common.Order.{Ord, cmp_refl}
use para_p2p.Common.BTree.{get, keys, values}
use para_p2p.Common.BTree.Sets.{is_eq, contains_nil}
use para_p2p.Crdt.Clock.{Dot, dot_ord, next_after}
use para_p2p.Crdt.OrSet.{OrSet, new, highest_counter, insert, remove, contains, tags_of}
use para_p2p.Crdt.OrSet.Counters.{
  counter-le_of_observed, counter-le_of_entombed, highest_counter-le,
}
use para_p2p.Crdt.OrSet.Fresh.{
  TagsAreUnique, minted, entombed-minted, entombed-insert, contains-merge-insert,
  insert-TagsAreUnique, contains-remove_ne,
}
use para_p2p.Crdt.OrSet.Membership.{contains_iff, observed-remove, contains-remove_self}
use para_p2p.Crdt.OrSet.Tags.{
  IsValid, observed, entombed, new-IsValid, insert-IsValid, remove-IsValid, observed-insert,
  entombed-remove,
}

pub data Edit {ℓ} (V : Type ℓ) : Type ℓ where
  insertion : String → V → Edit V
  removal : V → Edit V

module _ {ℓ} {V : Type ℓ} ⦃o : Ord V⦄ where
  pub edit : OrSet V → Edit V → OrSet V
  edit s (Edit.insertion r e) = insert s r e
  edit s (Edit.removal e) = remove s e

  pub edit_all : OrSet V → List (Edit V) → OrSet V
  edit_all s [] = s
  edit_all s (x ∷ xs) = edit_all (edit s x) xs

  -- The same on a plain set, which is its membership test.
  pub edit_plain : (V → Bool) → Edit V → V → Bool
  edit_plain p (Edit.insertion r e) q = is_eq (o.cmp q e) || p q
  edit_plain p (Edit.removal e) q = not (is_eq (o.cmp q e)) && p q

  pub edit_all_plain : (V → Bool) → List (Edit V) → V → Bool
  edit_all_plain p [] = p
  edit_all_plain p (x ∷ xs) = edit_all_plain (edit_plain p x) xs

  same_element : (q e : V) → is_eq (o.cmp q e) ≡ true → q ≡ e
  same_element q e h = ground (arith, o.eq_of_cmp q e)

  other_element : (q e : V) → is_eq (o.cmp q e) ≡ false → q ≢ e
  other_element q e h k = ground (arith, cmp_refl e, rw k at h)

  -- An insertion leaves every other element as it was.
  contains-insert_ne :
      (s : OrSet V) (r : String) (e q : V)
      → IsValid s
      → is_eq (o.cmp q e) ≡ false
      → contains (insert s r e) q ≡ contains s q
  contains-insert_ne s r e q v n =
      let after = contains_iff (insert s r e) q (insert-IsValid s r e v) in
      let before = contains_iff s q v in
      elim (Bool-cases (contains s q)) [
        | inl here ↦
            let (d, k) = before.0 here in
            rw here
              (after.1 (d, ground (arith, observed-insert s r e q d, entombed-insert s r e d)))
        | inr gone ↦ elim (Bool-cases (contains (insert s r e) q)) [
          | inl here ↦
              let (d, k) = after.0 here in
              let still =
                before.1 (d, ground (arith, observed-insert s r e q d, entombed-insert s r e d)) in
              absurd (cc (gone, still))
          | inr still_gone ↦ rw (gone, still_gone) refl
        ]
      ]

  contains-insert_self :
      (s : OrSet V) (r : String) (e : V)
      → IsValid s
      → highest_counter s < u64_max
      → contains (insert s r e) e ≡ true
  contains-insert_self s r e v h = (contains-merge-insert s s r e v v h (entombed-minted s r h)).0

  -- What the edits rely on, and keep: `n` bounds the counters.
  pub record IsFresh (s : OrSet V) (n : ℕ) : Type ℓ where
    pub valid : IsValid s
    pub unique : TagsAreUnique s
    pub bounded : highest_counter s ≤ n

  -- An edit does to the members what it does to a plain set.
  pub contains-edit :
      (s : OrSet V) (n : ℕ) (x : Edit V) (q : V)
      → IsFresh s n
      → n < u64_max
      → contains (edit s x) q ≡ edit_plain (contains s) x q
  unfolding edit edit_plain
  contains-edit s n (Edit.insertion r e) q f h = elim (Bool-cases (is_eq (o.cmp q e))) [
    | inl same ↦
        rw (same, same_element q e same)
          (contains-insert_self s r e f.valid (omega (arith, h, f.bounded)))
    | inr other ↦ rw other (contains-insert_ne s r e q f.valid other)
  ]
  contains-edit s n (Edit.removal e) q f h = elim (Bool-cases (is_eq (o.cmp q e))) [
    | inl same ↦ rw (same, same_element q e same) (contains-remove_self s e f.valid)
    | inr other ↦ rw other (contains-remove_ne s e q f.valid f.unique (other_element q e other))
  ]

  counter-minted : (s : OrSet V) (r : String) → (minted s r).counter ≤ highest_counter s + 1
  unfolding next_after
  counter-minted s r = ground arith

  highest_counter-remove :
      (s : OrSet V) (e : V) (n : ℕ) → IsFresh s n → highest_counter (remove s e) ≤ n + 1
  highest_counter-remove s e n f =
      highest_counter-le (remove s e) (n + 1) (remove-IsValid s e f.valid)
        (λ q d k.
          omega
            (arith, f.bounded, counter-le_of_observed s q d (sym (observed-remove s e q d) ∙ k)))
        (λ d k. elim (Bool-cases (entombed s d)) [
          | inl before ↦ omega (arith, f.bounded, counter-le_of_entombed s d before)
          | inr live ↦ omega (
            arith,
            f.bounded,
            counter-le_of_observed s e d (ground (arith, entombed-remove s e d f.valid)),
          )
        ])

  -- Each insertion raises the bound on the counters by one at most.
  highest_counter-insert :
      (s : OrSet V) (r : String) (e : V) (n : ℕ)
      → IsFresh s n
      → highest_counter (insert s r e) ≤ n + 1
  highest_counter-insert s r e n f =
      highest_counter-le (insert s r e) (n + 1) (insert-IsValid s r e f.valid) (λ q d k. seen q d k)
        (λ d k.
          omega (arith, f.bounded, counter-le_of_entombed s d (sym (entombed-insert s r e d) ∙ k)))
    where
      seen : (q : V) (d : Dot) → observed (insert s r e) q d ≡ true → d.counter ≤ n + 1
      seen q d k = elim (Bool-cases (observed s q d)) [
        | inl before ↦ omega (arith, f.bounded, counter-le_of_observed s q d before)
        | inr unseen ↦
            let same : d ≡ minted s r =
              dot_ord.eq_of_cmp d (minted s r) (ground (arith, observed-insert s r e q d)) in
            rw same (omega (arith, f.bounded, counter-minted s r))
      ]

  pub insert-IsFresh :
      (s : OrSet V) (n : ℕ) (r : String) (e : V)
      → IsFresh s n
      → n < u64_max
      → IsFresh (insert s r e) (n + 1)
  insert-IsFresh s n r e f h = record {
    valid = insert-IsValid s r e f.valid;
    unique = insert-TagsAreUnique s r e (omega (arith, h, f.bounded)) f.unique;
    bounded = highest_counter-insert s r e n f;
  }

  pub remove-IsFresh : (s : OrSet V) (n : ℕ) (e : V) → IsFresh s n → IsFresh (remove s e) (n + 1)
  remove-IsFresh s n e f = record {
    valid = remove-IsValid s e f.valid;
    unique = λ q g d h k.
        f.unique q g d (sym (observed-remove s e q d) ∙ h) (sym (observed-remove s e g d) ∙ k);
    bounded = highest_counter-remove s e n f;
  }

  edit-IsFresh :
      (s : OrSet V) (n : ℕ) (x : Edit V) → IsFresh s n → n < u64_max → IsFresh (edit s x) (n + 1)
  unfolding edit
  edit-IsFresh s n (Edit.insertion r e) f h = insert-IsFresh s n r e f h
  edit-IsFresh s n (Edit.removal e) f h = remove-IsFresh s n e f

  edit_plain-cong :
      (p p' : V → Bool) (x : Edit V) (q : V) → p q ≡ p' q → edit_plain p x q ≡ edit_plain p' x q
  unfolding edit_plain
  edit_plain-cong p p' (Edit.insertion r e) q h = ap (λ b. is_eq (o.cmp q e) || b) h
  edit_plain-cong p p' (Edit.removal e) q h = ap (λ b. not (is_eq (o.cmp q e)) && b) h

  edits_as_plain :
      (s : OrSet V) (n : ℕ) (p : V → Bool) (xs : List (Edit V)) (q : V)
      → IsFresh s n
      → n + length xs ≤ u64_max
      → ((e : V) → contains s e ≡ p e)
      → contains (edit_all s xs) q ≡ edit_all_plain p xs q
  unfolding edit_all edit_all_plain
  edits_as_plain s n p [] q f h same = same q
  edits_as_plain s n p (x ∷ xs) q f h same =
      let room : n < u64_max = omega arith in
      edits_as_plain (edit s x) (n + 1) (edit_plain p x) xs q (edit-IsFresh s n x f room)
        (omega arith)
        (λ e. contains-edit s n x e f room ∙ edit_plain-cong (contains s) p x e (same e))

  observed-new : (e : V) (d : Dot) → observed (new {V = V}) e d ≡ false
  unfolding new tags_of get
  observed-new e d = contains_nil d

  pub new-IsFresh : IsFresh new 0
  unfolding new highest_counter values keys
  new-IsFresh = record {
    valid = new-IsValid;
    unique = λ e f d h k. absurd (cc (h, observed-new e d));
    bounded = omega arith;
  }

  contains-new : (e : V) → contains (new {V = V}) e ≡ false
  unfolding new contains get
  contains-new e = refl

  -- Insertions, by any replicas, and removals on one state that was empty, no more of them than the
  -- counters of `u64` last: an element is a member afterwards exactly if it is in a plain set after
  -- the same edits.
  pub contains-edit_all :
      (xs : List (Edit V)) (q : V)
      → length xs ≤ u64_max
      → contains (edit_all new xs) q ≡ edit_all_plain (λ e. false) xs q
  contains-edit_all xs q h =
      edits_as_plain new 0 (λ e. false) xs q new-IsFresh (omega arith) contains-new
