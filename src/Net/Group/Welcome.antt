-- ===== src/Net/Group/Welcome.antt =====
-- How often, and when, the creator welcomes a member.
use mathlib.Core.List.{Memᴰ}
use mathlib.Core.List.Memᴰ.{head, tail}
use para_p2p.Common.{
  subst, ◌∙◌, ap, ◌⊎◌, String, ◌≡◌, refl, Bool, true, false, List, [], ◌∷◌, arith, inl, inr, filter,
  Bool-cases,
}
use para_p2p.Common.Io.{Result-cases, ok, err}
use para_p2p.Common.Order.{Ord, cmp_refl}
use para_p2p.Net.Crypto.{Crypto, Bytes}
use para_p2p.Net.Group.{EncryptedGroup, on_crypto, welcome_each, welcome_eligible, is_eligible}
use para_p2p.Net.Group.Frame.{Frame, welcome_each-Frame, greeted}

-- The welcome that nothing is left to do for, and what a failed one leaves undone.
module _ {ActorId : Type 0} ⦃o : Ord ActorId⦄ (C : Crypto ActorId) where
  filter_none :
      {A : Type 0} (p : A → Bool) (xs : List A)
      → ((x : A) → Memᴰ x xs → p x ≡ false)
      → filter p xs ≡ []
  filter_none p [] h = refl
  filter_none p (x ∷ xs) h = ground (arith, h x (head refl), filter_none p xs (λ y m. h y (tail m)))

  Memᴰ-filter :
      {A : Type 0} (p : A → Bool) (x : A) (xs : List A)
      → Memᴰ x xs
      → p x ≡ true
      → Memᴰ x (filter p xs)
  Memᴰ-filter p x [] m h = elim m [ ]
  Memᴰ-filter p x (y ∷ xs) (head e) h = rw (subst (λ z. p z ≡ true) e h) (head e)
  Memᴰ-filter p x (y ∷ xs) (tail m) h = elim (Bool-cases (p y)) [
    | inl k ↦ rw k (tail (Memᴰ-filter p x xs m h))
    | inr k ↦ rw k (Memᴰ-filter p x xs m h)
  ]

  -- A welcome of a list that succeeds has welcomed the first, and then the others.
  welcome_each_ok :
      (m : ActorId) (ms : List ActorId) (g : EncryptedGroup C) (wire : List Bytes)
      → (welcome_each C (m ∷ ms) g).0 ≡ ok wire
      → ((welcome_each C (m ∷ ms) g).1 ≡ (welcome_each C ms (greeted C m g)).1)
        × ((rest : List Bytes) × ((welcome_each C ms (greeted C m g)).0 ≡ ok rest))
  unfolding welcome_each on_crypto
  welcome_each_ok m ms g wire h = elim (Result-cases (welcome_each C ms (greeted C m g)).0) [
    | inl (rest, k) ↦ (ground arith, (rest, k))
    | inr (reason, k) ↦ absurd (ground arith)
  ]

  -- Whoever has been welcomed stays so, and a welcome that succeeds takes in everyone of the list.
  welcome_each-added :
      (ms : List ActorId) (g : EncryptedGroup C) (wire : List Bytes) (m : ActorId)
      → (welcome_each C ms g).0 ≡ ok wire
      → (g.added m ≡ true) ⊎ Memᴰ m ms
      → (welcome_each C ms g).1.added m ≡ true
  unfolding welcome_each
  welcome_each-added [] g wire m h (inl k) = k
  welcome_each-added [] g wire m h (inr k) = elim k [ ]
  welcome_each-added (x ∷ ms) g wire m h k =
      let (e, (rest, f)) = welcome_each_ok x ms g wire h in
      rw e (welcome_each-added ms (greeted C x g) rest m f (first k))
    where
      first : (g.added m ≡ true) ⊎ Memᴰ m (x ∷ ms) → ((greeted C x g).added m ≡ true) ⊎ Memᴰ m ms
      first (inl b) = inl (ground arith)
      first (inr (head e)) = inl (ground (arith, cmp_refl x))
      first (inr (tail b)) = inr b

  nobody_eligible :
      (g h : EncryptedGroup C) (m : ActorId)
      → Frame C g h
      → (is_eligible C g m ≡ true → h.added m ≡ true)
      → (g.added m ≡ true → h.added m ≡ true)
      → is_eligible C h m ≡ false
  unfolding is_eligible
  nobody_eligible g h m f new old =
      let known : h.known_bundles m ≡ g.known_bundles m = ap (λ s. s m) f.known_bundles in
      ground (arith, f.me)

  pub welcome_eligible_creator :
      (g : EncryptedGroup C)
      → g.creator ≡ true
      → welcome_eligible C g ≡ welcome_each C (filter (is_eligible C g) g.members) g
  unfolding welcome_eligible
  welcome_eligible_creator g h = rw h refl

  pub welcome_eligible_guest :
      (g : EncryptedGroup C) → g.creator ≡ false → welcome_eligible C g ≡ (ok [], g)
  unfolding welcome_eligible
  welcome_eligible_guest g h = rw h refl

  none_left :
      (g : EncryptedGroup C)
      → filter (is_eligible C g) g.members ≡ []
      → welcome_eligible C g ≡ (ok [], g)
  unfolding welcome_each
  none_left g h = elim (Bool-cases g.creator) [
    | inl lead ↦ welcome_eligible_creator g lead ∙ rw h refl
    | inr guest ↦ welcome_eligible_guest g guest
  ]

  welcomed_all :
      (g : EncryptedGroup C) (wire : List Bytes)
      → (welcome_each C (filter (is_eligible C g) g.members) g).0 ≡ ok wire
      → let h = (welcome_each C (filter (is_eligible C g) g.members) g).1 in
        filter (is_eligible C h) h.members ≡ []
  welcomed_all g wire w =
      let ms = filter (is_eligible C g) g.members in
      let h = (welcome_each C ms g).1 in
      let f : Frame C g h = welcome_each-Frame C ms g in
      rw f.members (
        filter_none (is_eligible C h) g.members (λ m k.
          nobody_eligible g h m f
            (λ e.
              welcome_each-added ms g wire m w
                (inr (Memᴰ-filter (is_eligible C g) m g.members k e)))
            (λ e. welcome_each-added ms g wire m w (inl e))))

  -- Once a welcome has succeeded, no declared member with a known key bundle is left to be welcomed:
  -- to welcome again calls nothing, sends nothing and changes nothing.
  welcome_eligible_twice :
      (g : EncryptedGroup C) (wire : List Bytes)
      → (welcome_eligible C g).0 ≡ ok wire
      → let h = (welcome_eligible C g).1 in welcome_eligible C h ≡ (ok [], h)
  welcome_eligible_twice g wire w = elim (Bool-cases g.creator) [
    | inr guest ↦ rw (welcome_eligible_guest g guest) (welcome_eligible_guest g guest)
    | inl lead ↦
        let e = welcome_eligible_creator g lead in
        rw e (none_left _ (welcomed_all g wire (rw e at w)))
  ]

  -- If one welcome succeeds and the next one fails, what was to be sent for the first is lost: the
  -- call fails, and the first member is not welcomed again.
  pub welcome_eligible_lost :
      (g : EncryptedGroup C) (m n : ActorId) (rest : List ActorId) (ops : List C.SpacesOp)
      (reason : String)
      → g.creator ≡ true
      → filter (is_eligible C g) g.members ≡ m ∷ n ∷ rest
      → (C.add g.space_id m C.read_access g.crypto).0 ≡ ok ops
      → (C.add g.space_id n C.read_access (C.add g.space_id m C.read_access g.crypto).1).0
        ≡ err reason
      → ((welcome_eligible C g).0 ≡ err reason) × (is_eligible C (welcome_eligible C g).1 m ≡ false)
  unfolding welcome_each on_crypto is_eligible
  welcome_eligible_lost g m n rest ops reason lead two first second =
      rw (welcome_eligible_creator g lead, two) (ground (arith, cmp_refl m))
