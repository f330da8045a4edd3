-- ===== src/Crdt/Mergeable/Convergence.antt =====
-- What the three laws are for: replicas that received the same states agree, whatever the order in
-- which the states arrived and however often each did.
use mathlib.Core.List.{Memᴰ}
use mathlib.Core.List.Memᴰ.{head, tail}
use para_p2p.Common.{◌≡◌, refl, sym, ap, ◌∙◌, ◌≡⟨◌⟩◌, ◌∎, List, [], ◌∷◌, All}
use para_p2p.Crdt.Mergeable.{Mergeable, deliver, Reflects}

All-of_mem {ℓ κ} :
    {A : Type ℓ} {P : A → Type κ} (xs : List A) → ((x : A) → Memᴰ x xs → P x) → All P xs
All-of_mem [] h = tt
All-of_mem (x ∷ xs) h = (h x (head refl), All-of_mem xs (λ y o. h y (tail o)))

module _ {ℓ} {A : Type ℓ} (m : Mergeable A) where
  open m use {merge, IsValid, merge-IsValid, merge_comm, merge_assoc, merge_idem}

  pub Reflects-trans :
      (a b c : A)
      → IsValid a
      → IsValid b
      → IsValid c
      → Reflects m c b
      → Reflects m b a
      → Reflects m c a
  Reflects-trans a b c va vb vc cb ba =
      merge c a
      ≡⟨ ap (λ x. merge x a) (sym cb) ⟩ merge (merge c b) a
      ≡⟨ merge_assoc c b a vc vb va ⟩ merge c (merge b a)
      ≡⟨ ap (merge c) ba ⟩ merge c b
      ≡⟨ cb ⟩ c ∎

  pub Reflects-antisym : (a b : A) → IsValid a → IsValid b → Reflects m a b → Reflects m b a → a ≡ b
  Reflects-antisym a b va vb ab ba = sym ab ∙ merge_comm a b va vb ∙ ba

  -- A merge reflects both of its arguments.
  pub merge-Reflects_left : (a b : A) → IsValid a → IsValid b → Reflects m (merge a b) a
  merge-Reflects_left a b va vb =
      merge (merge a b) a
      ≡⟨ merge_comm (merge a b) a (merge-IsValid a b va vb) va ⟩ merge a (merge a b)
      ≡⟨ sym (merge_assoc a a b va va vb) ⟩ merge (merge a a) b
      ≡⟨ ap (λ x. merge x b) (merge_idem a va) ⟩ merge a b ∎

  pub merge-Reflects_right : (a b : A) → IsValid a → IsValid b → Reflects m (merge a b) b
  merge-Reflects_right a b va vb = merge_assoc a b b va vb vb ∙ ap (merge a) (merge_idem b vb)

  -- And it is the least such state.
  merge_least :
      (a b u : A)
      → IsValid a
      → IsValid b
      → IsValid u
      → Reflects m u a
      → Reflects m u b
      → Reflects m u (merge a b)
  merge_least a b u va vb vu ua ub = sym (merge_assoc u a b vu va vb) ∙ ap (λ x. merge x b) ua ∙ ub

  pub deliver-IsValid :
      (s : A) (xs : List A) → IsValid s → All IsValid xs → IsValid (deliver m s xs)
  deliver-IsValid s [] vs vx = vs
  deliver-IsValid s (x ∷ xs) vs vx = deliver-IsValid (merge s x) xs (merge-IsValid s x vs vx.0) vx.1

  pub deliver-Reflects_start :
      (s : A) (xs : List A) → IsValid s → All IsValid xs → Reflects m (deliver m s xs) s
  deliver-Reflects_start s [] vs vx = merge_idem s vs
  deliver-Reflects_start s (x ∷ xs) vs vx =
      let vsx : IsValid (merge s x) = merge-IsValid s x vs vx.0 in
      Reflects-trans s (merge s x) (deliver m (merge s x) xs) vs vsx
        (deliver-IsValid (merge s x) xs vsx vx.1) (deliver-Reflects_start (merge s x) xs vsx vx.1)
        (merge-Reflects_left s x vs vx.0)

  -- A state that was received is reflected, so that its redelivery changes nothing.
  pub deliver-Reflects :
      (s : A) (xs : List A) {x : A}
      → IsValid s
      → All IsValid xs
      → Memᴰ x xs
      → Reflects m (deliver m s xs) x
  deliver-Reflects s [] vs vx o = elim o [ ]
  deliver-Reflects s (y ∷ ys) vs vx (head e) =
      let vsy : IsValid (merge s y) = merge-IsValid s y vs vx.0 in
      rw e (
        Reflects-trans y (merge s y) (deliver m (merge s y) ys) vx.0 vsy
          (deliver-IsValid (merge s y) ys vsy vx.1) (deliver-Reflects_start (merge s y) ys vsy vx.1)
          (merge-Reflects_right s y vs vx.0))
  deliver-Reflects s (y ∷ ys) vs vx (tail o) =
      deliver-Reflects (merge s y) ys (merge-IsValid s y vs vx.0) vx.1 o

  deliver_least :
      (s : A) (xs : List A) (u : A)
      → IsValid s
      → All IsValid xs
      → IsValid u
      → Reflects m u s
      → All (Reflects m u) xs
      → Reflects m u (deliver m s xs)
  deliver_least s [] u vs vx vu us ux = us
  deliver_least s (x ∷ xs) u vs vx vu us ux =
      deliver_least (merge s x) xs u (merge-IsValid s x vs vx.0) vx.1 vu
        (merge_least s x u vs vx.0 vu us ux.0) ux.1

  deliver-Reflects-deliver :
      (s : A) (xs ys : List A)
      → IsValid s
      → All IsValid xs
      → All IsValid ys
      → ((x : A) → Memᴰ x ys → Memᴰ x xs)
      → Reflects m (deliver m s xs) (deliver m s ys)
  deliver-Reflects-deliver s xs ys vs vx vy sub =
      deliver_least s ys (deliver m s xs) vs vy (deliver-IsValid s xs vs vx)
        (deliver-Reflects_start s xs vs vx)
        (All-of_mem ys (λ y o. deliver-Reflects s xs vs vx (sub y o)))

  -- Two replicas that start from one state and receive the same states end in one state, in
  -- whatever order the states arrive and however often each does.
  pub deliver_converges :
      (s : A) (xs ys : List A)
      → IsValid s
      → All IsValid xs
      → All IsValid ys
      → ((x : A) → Memᴰ x xs → Memᴰ x ys)
      → ((x : A) → Memᴰ x ys → Memᴰ x xs)
      → deliver m s xs ≡ deliver m s ys
  deliver_converges s xs ys vs vx vy to from =
      Reflects-antisym (deliver m s xs) (deliver m s ys) (deliver-IsValid s xs vs vx)
        (deliver-IsValid s ys vs vy) (deliver-Reflects-deliver s xs ys vs vx vy from)
        (deliver-Reflects-deliver s ys xs vs vy vx to)
