-- ===== src/Net/Group/Once.antt =====
-- No member is welcomed twice, unless it was removed in between.
use para_p2p.Common.{
  subst, sym, ℕ, suc, ◌+◌, ◌≤◌, String, ◌≡◌, refl, Bool, true, false, not, List, [], ◌∷◌, ◌++◌,
  arith, inl, inr, filter, if◌then◌else◌, any, Bool-cases,
}
use para_p2p.Common.Io.{Result-cases, ok, err}
use para_p2p.Common.Order.{Ord, cmp_refl}
use para_p2p.Net.Crypto.{Crypto, Bytes, Event}
use para_p2p.Net.Crypto.Traced.{traced, Call, added}
use para_p2p.Net.Group.{
  EncryptedGroup, on_crypto, announce, create, open_group, welcome_each, welcome_eligible,
  is_eligible, publish, flush, join, take_events, receive, add_member, remove_member, same,
}
use para_p2p.Net.Group.Frame.{
  welcome_each_next, welcome_each_stop, welcome_each_nil, welcome_eligible-Frame, greeted, failed,
  learned, declared,
}
use para_p2p.Net.Group.Steps.{Request, publishing, receiving, adding, removing, after_all}
use para_p2p.Net.Group.Welcome.{welcome_eligible_creator, welcome_eligible_guest}

module _ {ActorId : Type 0} ⦃o : Ord ActorId⦄ where
  -- How often the list names the member.
  abbrev pub occurs : ActorId → List ActorId → ℕ
  occurs m [] = 0
  occurs m (x ∷ xs) = if same m x then suc (occurs m xs) else occurs m xs

  -- How often the calls have added the member.
  abbrev pub adds : ActorId → List (Call ActorId × Bool) → ℕ
  adds m [] = 0
  adds m ((added x, true) ∷ calls) = if same m x then suc (adds m calls) else adds m calls
  adds m ((_, _) ∷ calls) = adds m calls

  -- How often the requests remove the member.
  abbrev pub removals : ActorId → List (Request ActorId) → ℕ
  removals m [] = 0
  removals m (removing x ∷ rs) = if same m x then suc (removals m rs) else removals m rs
  removals m (_ ∷ rs) = removals m rs

  occurs-filter :
      (m : ActorId) (p : ActorId → Bool) (xs : List ActorId) → occurs m (filter p xs) ≤ occurs m xs
  occurs-filter m p [] = omega arith
  occurs-filter m p (x ∷ xs) = ground (arith, occurs-filter m p xs)

  -- A member that the filter drops does not occur.
  occurs-filter_none :
      (m : ActorId) (p : ActorId → Bool) (xs : List ActorId)
      → p m ≡ false
      → occurs m (filter p xs) ≡ 0
  unfolding same
  occurs-filter_none m p [] h = refl
  occurs-filter_none m p (x ∷ xs) h = ground (arith, o.eq_of_cmp m x, occurs-filter_none m p xs h)

  occurs-declared :
      (m x : ActorId) (xs : List ActorId)
      → any (same x) xs ≡ false
      → occurs m (xs ++ (x ∷ [])) ≤ (if same m x then 1 else occurs m xs)
  unfolding same
  occurs-declared m x [] h = ground arith
  occurs-declared m x (y ∷ xs) h = ground (
    arith,
    o.eq_of_cmp m x,
    o.eq_of_cmp m y,
    o.eq_of_cmp x y,
    cmp_refl x,
    cmp_refl y,
    occurs-declared m x xs,
  )

module _ {ActorId : Type 0} ⦃o : Ord ActorId⦄ (C : Crypto ActorId) (m : ActorId) where
  -- The member has been added at most `suc k` times, and at most `k` times unless it is marked.
  abbrev IsCounted : ℕ → EncryptedGroup (traced C) → Type 0
  IsCounted k g = (adds m g.crypto.1 ≤ suc k) × (g.added m ≡ false → adds m g.crypto.1 ≤ k)

  abbrev IsBounded : ℕ → EncryptedGroup (traced C) → Type 0
  IsBounded k g = (occurs m g.members ≤ 1) × IsCounted k g

  greeted-IsCounted :
      (k : ℕ) (x : ActorId) (g : EncryptedGroup (traced C)) (ops : List C.SpacesOp)
      → IsCounted k g
      → (same m x ≡ true → g.added m ≡ false)
      → (C.add g.space_id x C.read_access g.crypto.0).0 ≡ ok ops
      → IsCounted k (greeted (traced C) x g)
  unfolding same
  greeted-IsCounted k x g ops i h e = ground arith

  failed-IsCounted :
      (k : ℕ) (x : ActorId) (g : EncryptedGroup (traced C)) (reason : String)
      → IsCounted k g
      → (C.add g.space_id x C.read_access g.crypto.0).0 ≡ err reason
      → IsCounted k (failed (traced C) x g)
  failed-IsCounted k x g reason i e = ground arith

  welcome_each-IsCounted :
      (k : ℕ) (ms : List ActorId) (g : EncryptedGroup (traced C))
      → IsCounted k g
      → occurs m ms ≤ 1
      → (occurs m ms ≡ 1 → g.added m ≡ false)
      → IsCounted k (welcome_each (traced C) ms g).1
  unfolding same
  welcome_each-IsCounted k [] g i h f = rw (welcome_each_nil (traced C) g) i
  welcome_each-IsCounted k (x ∷ ms) g i h f =
      elim (Result-cases (C.add g.space_id x C.read_access g.crypto.0).0) [
        | inl (ops, e) ↦ subst (IsCounted k) (sym (welcome_each_next (traced C) x ms g ops e)) (
            welcome_each-IsCounted k ms (greeted (traced C) x g)
              (greeted-IsCounted k x g ops i (λ t. f (ground arith)) e) (ground arith)
              (λ t. ground arith))
        | inr (reason, e) ↦
            subst (IsCounted k) (sym (welcome_each_stop (traced C) x ms g reason e))
              (failed-IsCounted k x g reason i e)
      ]

  welcome_eligible-IsBounded :
      (k : ℕ) (g : EncryptedGroup (traced C))
      → IsBounded k g
      → IsBounded k (welcome_eligible (traced C) g).1
  unfolding is_eligible
  welcome_eligible-IsBounded k g i = (
    ground (arith, welcome_eligible-Frame (traced C) g),
    elim (Bool-cases g.creator) [
      | inr guest ↦ rw (welcome_eligible_guest (traced C) g guest) i.1
      | inl lead ↦ rw (welcome_eligible_creator (traced C) g lead) (
          welcome_each-IsCounted k (filter (is_eligible (traced C) g) g.members) g i.1
            (omega (arith, i.0, occurs-filter m (is_eligible (traced C) g) g.members))
            (λ t. ground (arith, occurs-filter_none m (is_eligible (traced C) g) g.members)))
    ],
  )

  publish-IsBounded :
      (k : ℕ) (plaintext : Bytes) (g : EncryptedGroup (traced C))
      → IsBounded k g
      → IsBounded k (publish (traced C) plaintext g).1
  unfolding publish on_crypto
  publish-IsBounded k plaintext g i = ground arith

  join-IsBounded :
      (k : ℕ) (g : EncryptedGroup (traced C)) → IsBounded k g → IsBounded k (join (traced C) g).1
  unfolding join on_crypto flush
  join-IsBounded k g i = ground arith

  take_events-IsBounded :
      (k : ℕ) (events : List (Event ActorId)) (g : EncryptedGroup (traced C))
      → IsBounded k g
      → IsBounded k (take_events (traced C) events g).1
  unfolding take_events
  take_events-IsBounded k events g i =
      let h = learned (traced C) events g in
      let w : IsBounded k (welcome_eligible (traced C) h).1 = welcome_eligible-IsBounded k h i in
      ground (arith, join-IsBounded k (welcome_eligible (traced C) h).1)

  receive-IsBounded :
      (k : ℕ) (wire : Bytes) (g : EncryptedGroup (traced C))
      → IsBounded k g
      → IsBounded k (receive (traced C) wire g).1
  unfolding receive on_crypto
  receive-IsBounded k wire g i = elim (Result-cases (C.from_wire wire)) [
    | inl (op, e) ↦ elim (Result-cases (C.receive op g.crypto.0).0) [
      | inl (events, t) ↦ ground (
        arith,
        take_events-IsBounded k events
            (record g { crypto = ((C.receive op g.crypto.0).1, g.crypto.1) }),
      )
      | inr (reason, t) ↦ ground arith
    ]
    | inr (reason, e) ↦ ground arith
  ]

  add_member-IsBounded :
      (k : ℕ) (x : ActorId) (g : EncryptedGroup (traced C))
      → IsBounded k g
      → IsBounded k (add_member (traced C) x g).1
  unfolding add_member
  add_member-IsBounded k x g i =
      welcome_eligible-IsBounded k (declared (traced C) x g)
        (ground (arith, occurs-declared m x g.members), i.1)

  remove_member-IsBounded :
      (k : ℕ) (x : ActorId) (g : EncryptedGroup (traced C))
      → IsBounded k g
      → IsBounded (if same m x then suc k else k) (remove_member (traced C) x g).1
  unfolding remove_member on_crypto same
  remove_member-IsBounded k x g i = ground (arith, occurs-filter m (λ y. not (same y x)) g.members)

  open_group-IsBounded :
      (topic : String) (members : List ActorId) (crypto : C.State)
      → occurs m members ≤ 1
      → IsBounded 0 (open_group (traced C) topic members (crypto, [])).1
  unfolding open_group announce create on_crypto
  open_group-IsBounded topic members crypto h = ground arith

  removals_next :
      (x : ActorId) (rs : List (Request ActorId)) (k : ℕ)
      → removals m rs + (if same m x then suc k else k) ≡ removals m (removing x ∷ rs) + k
  removals_next x rs k = ground arith

  after_all-IsBounded :
      (rs : List (Request ActorId)) (k : ℕ) (g : EncryptedGroup (traced C))
      → IsBounded k g
      → IsBounded (removals m rs + k) (after_all (traced C) rs g)
  after_all-IsBounded [] k g i = subst (λ n. IsBounded n g) (omega arith) i
  after_all-IsBounded (publishing p ∷ rs) k g i =
      after_all-IsBounded rs k (publish (traced C) p g).1 (publish-IsBounded k p g i)
  after_all-IsBounded (receiving w ∷ rs) k g i =
      after_all-IsBounded rs k (receive (traced C) w g).1 (receive-IsBounded k w g i)
  after_all-IsBounded (adding x ∷ rs) k g i =
      after_all-IsBounded rs k (add_member (traced C) x g).1 (add_member-IsBounded k x g i)
  after_all-IsBounded (removing x ∷ rs) k g i =
      subst (λ n. IsBounded n (after_all (traced C) rs (remove_member (traced C) x g).1))
        (removals_next x rs k)
        (after_all-IsBounded rs (if same m x then suc k else k) (remove_member (traced C) x g).1
          (remove_member-IsBounded k x g i))

  -- A list of members names the member at most once, and the group is opened with it. Whatever is
  -- then asked of the node and whatever it receives, failed calls included, it has added the member
  -- at most once more than it was asked to remove it.
  pub adds_once :
      (topic : String) (members : List ActorId) (crypto : C.State) (rs : List (Request ActorId))
      → occurs m members ≤ 1
      → adds m
          (after_all (traced C) rs (open_group (traced C) topic members (crypto, [])).1).crypto.1
        ≤ suc (removals m rs)
  adds_once topic members crypto rs h =
      let i =
        after_all-IsBounded rs 0 (open_group (traced C) topic members (crypto, [])).1
          (open_group-IsBounded topic members crypto h) in
      omega (arith, i.1.0)
