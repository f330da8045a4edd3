-- ===== src/Para/Provider/OneNode.antt =====
-- One directory is one node: what the registry answers to two names for one directory.
use para_p2p.Common.{
  ◌≡◌, sym, ap, ◌∙◌, refl, Bool, List, [], ◌∷◌, Option, none, some, arith, Option-cases, map, inl,
  inr,
}
use para_p2p.Common.Io.{ok}
use para_p2p.Para.Directory.{FileSystem, IsPosix}
use para_p2p.Para.Provider.{
  NodeConfig, Key, backend_key, settle_key, Transport, Registry, find_or_start, backend_in,
}
use para_p2p.Para.Provider.Calls.{
  IsSettled, find_live, find_aliased, find-keeps, find-IsSettled, find-filed,
}

-- What a request is settled as depends on what it names as it stands.
backend_key-settled :
    (fs : FileSystem) (ring permitted : Bool) (q r : Option NodeConfig)
    → settle_key fs q ≡ settle_key fs r
    → settle_key fs (backend_key ring q permitted) ≡ settle_key fs (backend_key ring r permitted)
unfolding backend_key settle_key
backend_key-settled fs ring permitted none none h = refl
backend_key-settled fs ring permitted none (some b) h = ground arith
backend_key-settled fs ring permitted (some a) none h = ground arith
backend_key-settled fs ring permitted (some a) (some b) h = ground arith

module _ (T : Transport) (ring permitted : Bool) where
  open T use {World, Backend}

  -- The registry after the requests, each on the file system of its time.
  abbrev pub after_requests :
      List (FileSystem × Option NodeConfig) → Registry World Backend → Registry World Backend
  after_requests [] r = r
  after_requests ((fs, q) ∷ qs) r = after_requests qs (backend_in T ring fs q permitted r).1

  after_requests-keeps :
      (qs : List (FileSystem × Option NodeConfig)) (key : Key) (b : Backend)
      (r : Registry World Backend)
      → r.nodes key ≡ some b
      → (after_requests qs r).nodes key ≡ some b
  unfolding backend_in
  after_requests-keeps [] key b r h = h
  after_requests-keeps ((fs, q) ∷ qs) key b r h =
      after_requests-keeps qs key b (backend_in T ring fs q permitted r).1
        (find-keeps T ring fs (backend_key ring q permitted) key b r h)

  -- A name that has been answered with a backend has the same answer from then on, and changes
  -- nothing, whatever becomes of the file system and whatever is asked in between.
  pub backend_in_pinned :
      (fs later : FileSystem) (q : Option NodeConfig) (qs : List (FileSystem × Option NodeConfig))
      (b : Backend) (r : Registry World Backend)
      → (backend_in T ring fs q permitted r).0 ≡ ok b
      → let s : Registry World Backend = after_requests ((fs, q) ∷ qs) r in
        backend_in T ring later q permitted s ≡ (ok b, s)
  unfolding backend_in
  backend_in_pinned fs later q qs b r h =
      let key : Key = backend_key ring q permitted in
      let s : Registry World Backend = (find_or_start T ring fs key r).1 in
      find_live T ring later key (after_requests qs s) b
        (after_requests-keeps qs key b s (find-filed T ring fs key b r h))

  after_requests-IsSettled :
      (fs : FileSystem)
      → IsPosix fs
      → (qs : List (Option NodeConfig)) (r : Registry World Backend) → IsSettled T ring fs r
      → IsSettled T ring fs (after_requests (map (λ q. (fs, q)) qs) r)
  unfolding backend_in
  after_requests-IsSettled fs posix [] r h = h
  after_requests-IsSettled fs posix (q ∷ qs) r h =
      after_requests-IsSettled fs posix qs (backend_in T ring fs q permitted r).1
        (find-IsSettled T ring fs posix (backend_key ring q permitted) r h)

  find_known :
      (fs : FileSystem) (key : Key) (b : Backend) (s : Registry World Backend)
      → IsSettled T ring fs s
      → s.nodes (settle_key fs key) ≡ some b
      → ((find_or_start T ring fs key s).0 ≡ ok b)
        × ((find_or_start T ring fs key s).1.world ≡ s.world)
  find_known fs key b s i h = elim (Option-cases (s.nodes key)) [
    | inr (c, k) ↦ ground (arith, find_live T ring fs key s c k, i key c k)
    | inl k ↦ ground (arith, find_aliased T ring fs key s b k h)
  ]

  -- On a file system that resolves paths as documented and does not change: two names that resolve
  -- to one directory reach one backend, whatever was asked in between, and the request by the
  -- second name starts nothing. The registry must hold every live node under its resolved name too,
  -- as the empty one does.
  pub backend_in_one_node :
      (fs : FileSystem)
      → IsPosix fs
      → (q p : Option NodeConfig) (qs : List (Option NodeConfig)) (b : Backend)
        (r : Registry World Backend)
      → IsSettled T ring fs r
      → settle_key fs q ≡ settle_key fs p
      → (backend_in T ring fs q permitted r).0 ≡ ok b
      → let s : Registry World Backend = after_requests (map (λ x. (fs, x)) (q ∷ qs)) r in
        ((backend_in T ring fs p permitted s).0 ≡ ok b)
        × ((backend_in T ring fs p permitted s).1.world ≡ s.world)
  unfolding backend_in
  backend_in_one_node fs posix q p qs b r i same h =
      let key : Key = backend_key ring q permitted in
      let r' : Registry World Backend = (find_or_start T ring fs key r).1 in
      let filed : r'.nodes (settle_key fs key) ≡ some b =
        find-IsSettled T ring fs posix key r i key b (find-filed T ring fs key b r h) in
      let kept = after_requests-keeps (map (λ x. (fs, x)) qs) (settle_key fs key) b r' filed in
      find_known fs (backend_key ring p permitted) b (after_requests (map (λ x. (fs, x)) qs) r')
        (after_requests-IsSettled fs posix (q ∷ qs) r i)
        (ap (after_requests (map (λ x. (fs, x)) qs) r').nodes
            (sym (backend_key-settled fs ring permitted q p same))
          ∙ kept)
