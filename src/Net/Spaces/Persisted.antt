-- ===== src/Net/Spaces/Persisted.antt =====
-- `create_space`, `add`, `remove` and `receive` of CryptoGroups (p2p_crypto.rs), and what they leave
-- in the store.
use para_p2p.Common.{String, List, [], ◌∷◌, Option, none, some, ◌≡◌, refl, sym, ap, ◌∙◌, subst}
use para_p2p.Common.Io.{Io, Result, ok, err, pure, followed_by, ◌>>=◌, ◌>>◌}
use para_p2p.Common.Io.Succeeds.{bind-ok, then-ok, pure-ok}
use para_p2p.Net.Crypto.{Event}
use para_p2p.Net.Spaces.{
  P2pandaSpaces, SpacesOp, reported, all_parts, persist_groups, persist_space, persist, open_space,
  create_space, add, remove, receive, if_some,
}
use para_p2p.Net.Spaces.Stored.{
  StoreLaws, HasGroups, HasSpace, relabelled-ok, reported-ok, reported-then,
  persist_groups-HasGroups, persist_space-HasSpace, persist-Has,
}

module _ {ActorId : Type 0} (M : P2pandaSpaces ActorId) where
  open M use {World, SpaceId, Hash, AuthGroupState, SpacesState, SpacesStoreState, Access, Permit}

  -- The calls that change who is in a space.
  pub data Change : Type 0 where
    created : List (ActorId × Access) → Change
    added : ActorId → Access → Change
    removed : ActorId → Change

  abbrev pub change : Change → SpaceId → Io World (List (SpacesOp M))
  change (created initial) id = create_space M id initial
  change (added member access) id = add M id member access
  change (removed member) id = remove M id member

  abbrev both :
      AuthGroupState × SpacesState × M.Header × M.Header
      → AuthGroupState × SpacesState × List M.Header
  both (y, z, a, b) = (y, z, a ∷ b ∷ [])

  -- What the manager answers to it.
  abbrev pub answer : Change → SpaceId → Io World (AuthGroupState × SpacesState × List M.Header)
  answer (created initial) id = reported "cannot create space" (M.create_space id initial)
  answer (added member access) id = do
    space ← open_space M "cannot add to unknown space" id
    r ← reported "cannot add member" (M.add space member access)
    pure (both r)
  answer (removed member) id = do
    space ← open_space M "cannot remove from unknown space" id
    r ← reported "cannot remove member" (M.remove space member)
    pure (both r)

  bind_assoc :
      {A B D : Type 0} (m : Io World A) (f : A → Io World B) (g : B → Io World D) (w : World)
      → ((m >>= f) >>= g) w ≡ (m >>= (λ a. f a >>= g)) w
  bind_assoc m f g w = at_result (m w) f g
    where
      at_result :
          {A B D : Type 0} (r : Result A × World) (f : A → Io World B) (g : B → Io World D)
          → followed_by (followed_by r f) g ≡ followed_by r (λ a. f a >>= g)
      at_result (ok a, u) f g = refl
      at_result (err e, u) f g = refl

  bind_cong :
      {A B : Type 0} (m : Io World A) (f g : A → Io World B)
      → ((a : A) (u : World) → f a u ≡ g a u)
      → (w : World) → (m >>= f) w ≡ (m >>= g) w
  bind_cong m f g h w = at_result (m w) f g h
    where
      at_result :
          {A B : Type 0} (r : Result A × World) (f g : A → Io World B)
          → ((a : A) (u : World) → f a u ≡ g a u)
          → followed_by r f ≡ followed_by r g
      at_result (ok a, u) f g h = h a u
      at_result (err e, u) f g h = refl

  abbrev finish : AuthGroupState × SpacesState × List M.Header → Io World (List (SpacesOp M))
  finish (y, z, headers) = persist M y z >> pure (all_parts M headers)

  -- A call that opens the space, asks it, and writes what it hands back.
  opened :
      {A : Type 0} (m : Io World A)
      (ask : A → Io World (AuthGroupState × SpacesState × M.Header × M.Header)) (w : World)
      → (m >>= (λ a. ask a >>= (λ r. finish (both r)))) w
        ≡ ((m >>= (λ a. ask a >>= (λ r. pure (both r)))) >>= finish) w
  opened m ask w =
      bind_cong m (λ a. ask a >>= (λ r. finish (both r)))
        (λ a. (ask a >>= (λ r. pure (both r))) >>= finish)
        (λ a u. sym (bind_assoc (ask a) (λ r. pure (both r)) finish u)) w
      ∙ sym (bind_assoc m (λ a. ask a >>= (λ r. pure (both r))) finish w)

  change-answer :
      (c : Change) (id : SpaceId) (w : World) → change c id w ≡ (answer c id >>= finish) w
  unfolding create_space add remove
  change-answer (created initial) id w = refl
  change-answer (added member access) id w =
      opened (open_space M "cannot add to unknown space" id)
        (λ space. reported "cannot add member" (M.add space member access)) w
  change-answer (removed member) id w =
      opened (open_space M "cannot remove from unknown space" id)
        (λ space. reported "cannot remove member" (M.remove space member)) w

  module _ (L : StoreLaws M) where
    -- Given a store whose committed transactions keep what was set in them: when a call that
    -- creates a space, or adds or removes a member, succeeds, the manager has answered it with an
    -- authentication state, a state of the space and headers; both states are then in the store,
    -- and the call gives exactly the operations of those headers.
    pub change-persisted :
        (c : Change) (id : SpaceId) (w t : World) (ops : List (SpacesOp M))
        → change c id w ≡ (ok ops, t)
        → (y : AuthGroupState) × (z : SpacesState) × (headers : List M.Header) × (u : World)
          × (answer c id w ≡ (ok (y, z, headers), u))
          × HasGroups M L t y
          × HasSpace M L t z
          × (ops ≡ all_parts M headers)
    change-persisted c id w t ops h =
        let ((y, z, headers), u, a, r) =
          bind-ok (answer c id) finish w t (sym (change-answer c id w) ∙ h) in
        let (x, v, p, e) = then-ok (persist M y z) _ u t r in
        let (groups, space) =
          subst (λ s. HasGroups M L s y × HasSpace M L s z) (ap (λ q. q.1) e)
            (persist-Has M L y z u v p) in
        (y, z, headers, u, a, groups, space, cc e)

    persist_some_groups :
        (what : String) (o : Option AuthGroupState) (w t : World)
        → if_some M o (λ y. reported what (persist_groups M y)) w ≡ (ok tt, t)
        → (y : AuthGroupState) → o ≡ some y
        → HasGroups M L t y
    persist_some_groups what none w t h y e = cc
    persist_some_groups what (some x) w t h y e =
        let same : x ≡ y = cc e in
        subst (HasGroups M L t) same
          (persist_groups-HasGroups M L x w t (relabelled-ok what (persist_groups M x w) h)).0

    persist_some_space :
        (what : String) (o : Option SpacesState) (w t : World)
        → if_some M o (λ z. reported what (persist_space M z)) w ≡ (ok tt, t)
        → ((z : SpacesState) → o ≡ some z → HasSpace M L t z)
          × ((key : Hash) → L.groups_at t key ≡ L.groups_at w key)
    persist_some_space what none w t h = (λ z e. cc, λ key. ap (λ q. L.groups_at q.1 key) (sym h))
    persist_some_space what (some x) w t h =
        let (space, keeps) =
          persist_space-HasSpace M L x w t (relabelled-ok what (persist_space M x w) h) in
        (λ z e. let same : x ≡ z = cc e in subst (HasSpace M L t) same space, keeps)

    -- Given a store whose committed transactions keep what was set in them: when `receive`
    -- succeeds, the operation was in the store before the manager processed it, the events are
    -- those of the manager, and every state that the manager handed back with them, of the
    -- authentication or of a space, is in the store at the end.
    pub receive-persisted :
        (op : SpacesOp M) (w t : World) (events : List (Event ActorId))
        → receive M op w ≡ (ok events, t)
        → (groups : Option AuthGroupState) × (space : Option SpacesState) × (u : World)
          × (v : World) × (L.operation_at u (M.hash op.header) ≡ some op.header)
          × (M.process op.header u ≡ (ok (groups, space, events), v))
          × ((y : AuthGroupState) → groups ≡ some y → HasGroups M L t y)
          × ((z : SpacesState) → space ≡ some z → HasSpace M L t z)
    unfolding receive
    receive-persisted op w t events h =
        let (permit, u1, b, r1) = reported-ok "cannot begin store txn" M.begin _ w t h in
        let (x, u2, i, r2) =
          reported-then "cannot store received operation" (M.insert_operation _ _) _ u1 t r1 in
        let (x', u, c, r3) = reported-then "cannot commit store txn" (M.commit permit) _ u2 t r2 in
        let ((groups, space, got), v, p, r4) =
          reported-ok "cannot process spaces operation" (M.process op.header) _ u t r3 in
        let (y, u4, q, r5) = then-ok (if_some M groups _) _ v t r4 in
        let (y', u5, q', r6) = then-ok (if_some M space _) _ u4 t r5 in
        let (same, end) = pure-ok got events u5 t r6 in
        let (has_space, keeps) = persist_some_space "cannot persist space state" space u4 u5 q' in
        (
          groups,
          space,
          u,
          v,
          L.insert_operation-commit w u1 u2 u permit _ _ b i c,
          p ∙ ap (λ events. (ok (groups, space, events), v)) same,
          λ y e.
              subst (λ s. HasGroups M L s y) end
                (keeps _ ∙ persist_some_groups "cannot persist auth state" groups v u4 q y e),
          λ z e. subst (λ s. HasSpace M L s z) end (has_space z e),
        )
