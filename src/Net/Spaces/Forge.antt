-- ===== src/Net/Spaces/Forge.antt =====
-- `NoetaForge` of crates/noeta-para-p2p-net/src/p2p_crypto.rs, which mints the operations of a
-- node's own log, and why that log is one chain.
use para_p2p.Common.{
  ℕ, ◌+◌, List, [], ◌∷◌, Option, none, some, length, ◌≡◌, refl, sym, ap, ◌∙◌, subst, arith,
}
use para_p2p.Common.Io.{Io, ok, pure, ◌>>=◌, ◌>>◌}
use para_p2p.Common.Io.Succeeds.{bind-ok, then-ok, pure-ok}

-- What it calls of p2panda: the builder of a signed header, and the log of operations in the store.
-- `tx!` is `begin`, the body and `commit`.
pub record P2pandaLog : Type 1 where
  pub World : Type 0
  pub Header : Type 0
  pub Hash : Type 0
  pub SpacesArgs : Type 0
  pub Permit : Type 0
  pub build : ℕ → Option Hash → SpacesArgs → Header
  pub seq_num : Header → ℕ
  pub backlink : Header → Option Hash
  pub hash : Header → Hash
  pub begin : Io World Permit
  pub commit : Permit → Io World (Unit {0})
  -- the latest entry of the author's log of this number
  pub get_latest_entry_tx : ℕ → Io World (Option Header)
  pub insert_operation : Hash → Header → ℕ → Io World (Unit {0})

abbrev pub spaces_log_id : ℕ
spaces_log_id = 0

module _ (M : P2pandaLog) where
  open M use {World, Header, Hash, SpacesArgs}

  -- Where the next operation stands, after the latest one.
  unfoldable pub next_place : Option Header → ℕ × Option Hash
  next_place none = (0, none)
  next_place (some op) = (M.seq_num op + 1, some (M.hash op))

  -- The header in its place, in the open transaction.
  unfoldable pub mint : M.Permit → ℕ × Option Hash → SpacesArgs → Io World Header
  mint permit (seq_num, backlink) args =
      let header = M.build seq_num backlink args in
      (do M.insert_operation (M.hash header) header spaces_log_id; M.commit permit; pure header)

  unfoldable pub forge : SpacesArgs → Io World Header
  unfolding mint
  forge args = do
    permit ← M.begin
    latest ← M.get_latest_entry_tx spaces_log_id
    mint permit (next_place latest) args

  -- One operation after another.
  unfoldable pub forge_all : List SpacesArgs → Io World (List Header)
  forge_all [] = pure []
  forge_all (args ∷ rest) = do
    header ← forge args
    headers ← forge_all rest
    pure (header ∷ headers)

  abbrev pub latest_of : List Header → Option Header
  latest_of [] = none
  latest_of (op ∷ log) = some op

  -- The log of the node itself, the latest operation first, and what the calls do with it.
  pub record LogLaws : Type 0 where
    pub log : World → List Header
    pub begin-log : (w t : World) (permit : M.Permit) → M.begin w ≡ (ok permit, t) → log t ≡ log w
    pub latest-log :
        (w t : World) (op : Option Header)
        → M.get_latest_entry_tx spaces_log_id w ≡ (ok op, t)
        → (op ≡ latest_of (log w)) × (log t ≡ log w)
    pub insert-log :
        (w t : World) (op : Header)
        → M.insert_operation (M.hash op) op spaces_log_id w ≡ (ok tt, t)
        → log t ≡ op ∷ log w
    pub commit-log :
        (w t : World) (permit : M.Permit) → M.commit permit w ≡ (ok tt, t) → log t ≡ log w
    pub seq_num-build :
        (n : ℕ) (link : Option Hash) (args : SpacesArgs) → M.seq_num (M.build n link args) ≡ n
    pub backlink-build :
        (n : ℕ) (link : Option Hash) (args : SpacesArgs) → M.backlink (M.build n link args) ≡ link

  -- Each operation has the number of those before it, and links to the one before it.
  abbrev pub IsChain : List Header → Type 0
  IsChain [] = Unit
  IsChain (op ∷ log) =
      (M.seq_num op ≡ length log) × (M.backlink op ≡ (next_place (latest_of log)).1) × IsChain log

  -- The operations put onto a log, one after another.
  abbrev pub onto : List Header → List Header → List Header
  onto [] log = log
  onto (op ∷ ops) log = onto ops (op ∷ log)

  next_place-length :
      (log : List Header) → IsChain log → (next_place (latest_of log)).0 ≡ length log
  unfolding next_place
  next_place-length [] h = refl
  next_place-length (op ∷ log) (h, k, r) = omega (arith, h)

  module _ (L : LogLaws) where
    open L use {log}

    mint-log :
        (permit : M.Permit) (n : ℕ) (link : Option Hash) (args : SpacesArgs) (w t : World)
        (op : Header)
        → mint permit (n, link) args w ≡ (ok op, t)
        → (op ≡ M.build n link args) × (log t ≡ op ∷ log w)
    unfolding mint
    mint-log permit n link args w t op h =
        let header = M.build n link args in
        let (x, u, i, r) =
          then-ok (M.insert_operation (M.hash header) header spaces_log_id) _ w t h in
        let (y, v, c, e) = then-ok (M.commit permit) _ u t r in
        let (same, end) = pure-ok header op v t e in
        (
          sym same,
          ap log (sym end)
              ∙ L.commit-log u v permit c
              ∙ L.insert-log w u header i
              ∙ ap (λ x. x ∷ log w) same,
        )

    forge-log :
        (args : SpacesArgs) (w t : World) (op : Header)
        → forge args w ≡ (ok op, t)
        → IsChain (log w)
        → (log t ≡ op ∷ log w) × IsChain (op ∷ log w)
    unfolding forge
    forge-log args w t op h c =
        let (permit, u, b, r) = bind-ok M.begin _ w t h in
        let (latest, v, l, e) = bind-ok (M.get_latest_entry_tx spaces_log_id) _ u t r in
        let (is_latest, kept) = L.latest-log u v latest l in
        let before : log u ≡ log w = L.begin-log w u permit b in
        let place = ap next_place (is_latest ∙ ap latest_of before) in
        let (n, link) = next_place latest in
        let (built, grown) = mint-log permit n link args v t op e in
        (
          grown ∙ ap (λ x. op ∷ x) (kept ∙ before),
          (
            ap M.seq_num built
                ∙ L.seq_num-build n link args
                ∙ ap (λ p. p.0) place
                ∙ next_place-length (log w) c,
            ap M.backlink built ∙ L.backlink-build n link args ∙ ap (λ p. p.1) place,
            c,
          ),
        )

    -- Given a store that keeps the node's own log: operations that are minted one after another,
    -- all with success, are put onto the log in that order, and if each operation of the log had
    -- the number of those before it and a link to the one before it, each still has.
    pub forge_all-IsChain :
        (args : List SpacesArgs) (w t : World) (ops : List Header)
        → forge_all args w ≡ (ok ops, t)
        → IsChain (log w)
        → (log t ≡ onto ops (log w)) × IsChain (log t)
    unfolding forge_all
    forge_all-IsChain [] w t ops h c =
        let (same, end) = pure-ok [] ops w t h in
        (ap log (sym end) ∙ ap (λ x. onto x (log w)) same, subst (λ s. IsChain (log s)) end c)
    forge_all-IsChain (a ∷ args) w t ops h c =
        let (op, u, f, r) = bind-ok (forge a) _ w t h in
        let (rest, v, k, e) = bind-ok (forge_all args) _ u t r in
        let (same, end) = pure-ok (op ∷ rest) ops v t e in
        let (grown, chain) = forge-log a w u op f c in
        let (all_grown, all_chain) =
          forge_all-IsChain args u v rest k (subst IsChain (sym grown) chain) in
        (
          ap log (sym end) ∙ all_grown ∙ ap (onto rest) grown ∙ ap (λ x. onto x (log w)) same,
          subst (λ s. IsChain (log s)) end all_chain,
        )
