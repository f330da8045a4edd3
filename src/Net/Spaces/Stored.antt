-- ===== src/Net/Spaces/Stored.antt =====
-- The transactions of `persist_groups`, `persist_space` and `persist` of CryptoGroups (p2p_crypto.rs),
-- and what is asked of the store that they write to.
use para_p2p.Common.{String, Option, some, ◌≡◌, ◌∙◌}
use para_p2p.Common.Io.{Io, Result, ok, err, ◌>>=◌, ◌>>◌}
use para_p2p.Common.Io.Succeeds.{bind-ok, then-ok}
use para_p2p.Net.Spaces.{
  P2pandaSpaces, global_groups_context_id, relabelled, reported, persist_groups, persist_space,
  persist,
}

pub relabelled-ok :
    {S A : Type 0} (what : String) (r : Result A × S) {a : A} {t : S}
    → relabelled what r ≡ (ok a, t)
    → r ≡ (ok a, t)
relabelled-ok what (ok a, s) h = h
relabelled-ok what (err e, s) h = cc

-- A call of the store that is asked to say what failed, and what succeeded before and after it.
pub reported-ok :
    {S A B : Type 0} (what : String) (m : Io S A) (f : A → Io S B) (s t : S) {b : B}
    → (reported what m >>= f) s ≡ (ok b, t)
    → (a : A) × (u : S) × (m s ≡ (ok a, u)) × (f a u ≡ (ok b, t))
reported-ok what m f s t h =
    let (a, u, k, r) = bind-ok (reported what m) f s t h in (a, u, relabelled-ok what (m s) k, r)

pub reported-then :
    {S A B : Type 0} (what : String) (m : Io S A) (n : Io S B) (s t : S) {b : B}
    → (reported what m >> n) s ≡ (ok b, t)
    → (a : A) × (u : S) × (m s ≡ (ok a, u)) × (n u ≡ (ok b, t))
reported-then what m n s t h = reported-ok what m (λ a. n) s t h

module _ {ActorId : Type 0} (M : P2pandaSpaces ActorId) where
  open M use {World, SpaceId, Hash, AuthGroupState, SpacesState, SpacesStoreState, Access, Permit}

  -- The tables of the store, where a transaction that commits leaves what was set in it and nothing
  -- else changed.
  pub record StoreLaws : Type 0 where
    pub groups_at : World → Hash → Option AuthGroupState
    pub space_at : World → SpaceId → Option SpacesStoreState
    pub operation_at : World → Hash → Option M.Header
    pub set_groups-commit :
        (w u v t : World) (permit : Permit) (key : Hash) (y : AuthGroupState)
        → M.begin w ≡ (ok permit, u)
        → M.set_groups_state_tx key y u ≡ (ok tt, v)
        → M.commit permit v ≡ (ok tt, t)
        → (groups_at t key ≡ some y) × ((id : SpaceId) → space_at t id ≡ space_at w id)
    pub set_space-commit :
        (w u v t : World) (permit : Permit) (id : SpaceId) (z : SpacesStoreState)
        → M.begin w ≡ (ok permit, u)
        → M.set_space_state_tx id z u ≡ (ok tt, v)
        → M.commit permit v ≡ (ok tt, t)
        → (space_at t id ≡ some z) × ((key : Hash) → groups_at t key ≡ groups_at w key)
    pub insert_operation-commit :
        (w u v t : World) (permit : Permit) (key : Hash) (op : M.Header)
        → M.begin w ≡ (ok permit, u)
        → M.insert_operation key op u ≡ (ok tt, v)
        → M.commit permit v ≡ (ok tt, t)
        → operation_at t key ≡ some op

  module _ (L : StoreLaws) where
    abbrev pub HasGroups : World → AuthGroupState → Type 0
    HasGroups w y = L.groups_at w (M.digest global_groups_context_id) ≡ some y

    abbrev pub HasSpace : World → SpacesState → Type 0
    HasSpace w z = L.space_at w (M.space_id z) ≡ some (M.into_store z)

    pub persist_groups-HasGroups :
        (y : AuthGroupState) (w t : World)
        → persist_groups M y w ≡ (ok tt, t)
        → HasGroups t y × ((id : SpaceId) → L.space_at t id ≡ L.space_at w id)
    unfolding persist_groups
    persist_groups-HasGroups y w t h =
        let (permit, u, b, k) = bind-ok M.begin _ w t h in
        let (x, v, s, c) = then-ok (M.set_groups_state_tx _ y) _ u t k in
        L.set_groups-commit w u v t permit _ y b s c

    pub persist_space-HasSpace :
        (z : SpacesState) (w t : World)
        → persist_space M z w ≡ (ok tt, t)
        → HasSpace t z × ((key : Hash) → L.groups_at t key ≡ L.groups_at w key)
    unfolding persist_space
    persist_space-HasSpace z w t h =
        let (permit, u, b, k) = bind-ok M.begin _ w t h in
        let (x, v, s, c) = then-ok (M.set_space_state_tx _ _) _ u t k in
        L.set_space-commit w u v t permit _ _ b s c

    pub persist-Has :
        (y : AuthGroupState) (z : SpacesState) (w t : World)
        → persist M y z w ≡ (ok tt, t)
        → HasGroups t y × HasSpace t z
    unfolding persist
    persist-Has y z w t h =
        let (x, u, a, r) = reported-then "cannot persist auth state" (persist_groups M y) _ w t h in
        let p = relabelled-ok "cannot persist space state" (persist_space M z u) r in
        let (groups, _) = persist_groups-HasGroups y w u a in
        let (space, keeps) = persist_space-HasSpace z u t p in
        (keeps (M.digest global_groups_context_id) ∙ groups, space)
