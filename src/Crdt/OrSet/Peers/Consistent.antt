-- ===== src/Crdt/OrSet/Peers/Consistent.antt =====
-- What the replicas of Crdt/OrSet/Peers keep among them, and that a state which extends that of a
-- replica may take its place.
use para_p2p.Common.{
  ℕ, ◌+◌, ◌≤◌, ◌≡◌, ◌⊎◌, refl, sym, ap, ◌∙◌, String, true, List, [], ◌∷◌, arith, Bool-cases, inl,
  inr, All,
}
use para_p2p.Common.Order.{Ord, string_ord, cmp_refl}
use para_p2p.Common.BTree.Sets.{is_eq}
use para_p2p.Crdt.Clock.{Dot, dot_ord, next_after}
use para_p2p.Crdt.OrSet.{OrSet, highest_counter, insert, remove, merge}
use para_p2p.Crdt.OrSet.Counters.{
  counter-le_of_observed, counter-le_of_entombed, highest_counter-le,
}
use para_p2p.Crdt.OrSet.Edits.{IsFresh}
use para_p2p.Crdt.OrSet.Fresh.{TagsAreUnique, minted}
use para_p2p.Crdt.OrSet.Laws.{merge-IsValid}
use para_p2p.Crdt.OrSet.Membership.{observed-remove}
use para_p2p.Crdt.OrSet.Tags.{
  IsValid, observed, entombed, observed-insert, observed-merge, entombed-merge,
}
use para_p2p.Crdt.OrSet.Peers.{Peers, put}

pub All-map {κ κ' ν} :
    {A : Type κ} {P : A → Type κ'} {Q : A → Type ν} (xs : List A)
    → ((x : A) → P x → Q x)
    → All P xs
    → All Q xs
All-map [] f h = tt
All-map (x ∷ xs) f h = (f x h.0, All-map xs f h.1)

module _ {ℓ} {V : Type ℓ} ⦃o : Ord V⦄ where
  -- The replica that a tag names has seen the insertion that the tag stands for.
  abbrev pub IsOwned : Peers V → OrSet V → Type ℓ
  IsOwned p t = (e : V) (d : Dot) → observed t e d ≡ true → observed (p.states d.replica) e d ≡ true

  pub record IsKnown (p : Peers V) (n : ℕ) (t : OrSet V) : Type ℓ where
    pub valid : IsValid t
    pub owned : IsOwned p t
    pub bounded : highest_counter t ≤ n

  pub record IsConsistent (p : Peers V) (n : ℕ) : Type ℓ where
    pub known : (r : String) → IsKnown p n (p.states r)
    pub unique : (r : String) → TagsAreUnique (p.states r)
    pub posted : All (IsKnown p n) p.mail

  pub states-IsFresh :
      (p : Peers V) (n : ℕ) (r : String) → IsConsistent p n → IsFresh (p.states r) n
  states-IsFresh p n r c = record {
    valid = (c.known r).valid;
    unique = c.unique r;
    bounded = (c.known r).bounded;
  }

  -- What a peer may come to hold: all that it held, and tags that it minted or that are owned.
  pub record Extends (p : Peers V) (r : String) (s : OrSet V) : Type ℓ where
    pub grown : (e : V) (d : Dot) → observed (p.states r) e d ≡ true → observed s e d ≡ true
    pub minted_or_owned :
        (e : V) (d : Dot)
        → observed s e d ≡ true
        → (d.replica ≡ r) ⊎ (observed (p.states d.replica) e d ≡ true)

  put_same : (p : Peers V) (r : String) (s : OrSet V) → (put p r s).states r ≡ s
  unfolding put
  put_same p r s = ground (arith, cmp_refl ⦃o = string_ord⦄ r)

  -- What a replica has seen it still has seen after another state is put in.
  put-observed :
      (p : Peers V) (r : String) (s : OrSet V) (q : String) (e : V) (d : Dot)
      → Extends p r s
      → observed (p.states q) e d ≡ true
      → observed ((put p r s).states q) e d ≡ true
  unfolding put
  put-observed p r s q e d x h = elim (Bool-cases (is_eq (string_ord.cmp q r))) [
    | inl same ↦
        let same_id : q ≡ r = ground (arith, string_ord.eq_of_cmp q r) in
        rw same (x.grown e d (rw same_id at h))
    | inr other ↦ rw other h
  ]

  put-observed_own :
      (p : Peers V) (r : String) (s : OrSet V) (q : String) (e : V) (d : Dot)
      → q ≡ r
      → observed s e d ≡ true
      → observed ((put p r s).states q) e d ≡ true
  put-observed_own p r s q e d same h = rw same (rw (put_same p r s) h)

  put-IsKnown :
      (p : Peers V) (r : String) (s t : OrSet V) (n : ℕ)
      → Extends p r s
      → IsKnown p n t
      → IsKnown (put p r s) (n + 1) t
  put-IsKnown p r s t n x k = record {
    valid = k.valid;
    owned = λ e d h. put-observed p r s d.replica e d x (k.owned e d h);
    bounded = omega (arith, k.bounded);
  }

  -- A state that extends what a replica held may take its place.
  pub put-IsConsistent :
      (p : Peers V) (r : String) (s : OrSet V) (n : ℕ)
      → IsConsistent p n
      → IsFresh s (n + 1)
      → Extends p r s
      → IsConsistent (put p r s) (n + 1)
  unfolding put
  put-IsConsistent p r s n c f x = record {
    known = λ q. at q;
    unique = λ q. alone q;
    posted = All-map p.mail (λ t k. put-IsKnown p r s t n x k) c.posted;
  }
    where
      itself : IsOwned (put p r s) s
      itself e d h = elim (x.minted_or_owned e d h) [
        | inl own ↦ put-observed_own p r s d.replica e d own h
        | inr old ↦ put-observed p r s d.replica e d x old
      ]

      at : (q : String) → IsKnown (put p r s) (n + 1) ((put p r s).states q)
      at q = elim (Bool-cases (is_eq (string_ord.cmp q r))) [
        | inl same ↦ rw same (record { valid = f.valid; owned = itself; bounded = f.bounded })
        | inr other ↦ rw other (put-IsKnown p r s (p.states q) n x (c.known q))
      ]

      alone : (q : String) → TagsAreUnique ((put p r s).states q)
      alone q = elim (Bool-cases (is_eq (string_ord.cmp q r))) [
        | inl same ↦ rw same f.unique
        | inr other ↦ rw other (c.unique q)
      ]

  replica-minted : (s : OrSet V) (r : String) → (minted s r).replica ≡ r
  unfolding next_after
  replica-minted s r = refl

  pub insert-Extends :
      (p : Peers V) (r : String) (e : V)
      → IsOwned p (p.states r)
      → Extends p r (insert (p.states r) r e)
  insert-Extends p r e owned = record {
    grown = λ q d h. ground (arith, observed-insert (p.states r) r e q d);
    minted_or_owned = λ q d h. elim (Bool-cases (observed (p.states r) q d)) [
      | inl before ↦ inr (owned q d before)
      | inr unseen ↦
          let same : d ≡ minted (p.states r) r =
            dot_ord.eq_of_cmp d (minted (p.states r) r)
              (ground (arith, observed-insert (p.states r) r e q d)) in
          inl (ap (λ x. x.replica) same ∙ replica-minted (p.states r) r)
    ];
  }

  pub remove-Extends :
      (p : Peers V) (r : String) (e : V)
      → IsOwned p (p.states r)
      → Extends p r (remove (p.states r) e)
  remove-Extends p r e owned = record {
    grown = λ q d h. observed-remove (p.states r) e q d ∙ h;
    minted_or_owned = λ q d h. inr (owned q d (sym (observed-remove (p.states r) e q d) ∙ h));
  }

  pub merge-Extends :
      (p : Peers V) (r : String) (t : OrSet V)
      → IsOwned p (p.states r)
      → IsValid t
      → IsOwned p t
      → Extends p r (merge (p.states r) t)
  merge-Extends p r t owned v owned_t = record {
    grown = λ q d h. ground (arith, observed-merge (p.states r) t q d v);
    minted_or_owned = λ q d h. elim (Bool-cases (observed (p.states r) q d)) [
      | inl before ↦ inr (owned q d before)
      | inr unseen ↦ inr (owned_t q d (ground (arith, observed-merge (p.states r) t q d v)))
    ];
  }

  pub merge-IsFresh :
      (p : Peers V) (r : String) (t : OrSet V) (n : ℕ)
      → IsConsistent p n
      → IsKnown p n t
      → IsFresh (merge (p.states r) t) (n + 1)
  merge-IsFresh p r t n c k = record {
    valid = merge-IsValid s t (c.known r).valid k.valid;
    unique = λ e f d he hf. c.unique d.replica e f d (from e d he) (from f d hf);
    bounded =
        highest_counter-le (merge s t) (n + 1) (merge-IsValid s t (c.known r).valid k.valid)
          (λ e d h. omega (
            arith,
            counter-le_of_observed (p.states d.replica) e d (from e d h),
            (c.known d.replica).bounded,
          ))
          (λ d h. elim (Bool-cases (entombed s d)) [
            | inl old ↦ omega (arith, counter-le_of_entombed s d old, (c.known r).bounded)
            | inr live ↦ omega (
              arith,
              counter-le_of_entombed t d (ground (arith, entombed-merge s t d k.valid)),
              k.bounded,
            )
          ]);
  }
    where
      s : OrSet V
      s = p.states r

      from :
          (e : V) (d : Dot)
          → observed (merge s t) e d ≡ true
          → observed (p.states d.replica) e d ≡ true
      from e d h = elim (Bool-cases (observed s e d)) [
        | inl old ↦ (c.known r).owned e d old
        | inr unseen ↦ k.owned e d (ground (arith, observed-merge s t e d k.valid))
      ]
