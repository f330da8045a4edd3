-- ===== src/Para/Provider/Calls.antt =====
-- What one call of the registry answers, and what it leaves.
use para_p2p.Common.{
  ◌≡◌, inl, inr, refl, fun_ext, Bool, true, false, none, some, arith, Option-cases,
}
use para_p2p.Common.HashMap
use para_p2p.Common.HashMap.{HashMap}
use para_p2p.Common.Io.{Result, ok, err, Result-cases}
use para_p2p.Common.Io.Keeps.{Keeps}
use para_p2p.Para.Directory.{FileSystem, IsPosix}
use para_p2p.Para.Directory.Again.{canonical_dir_again}
use para_p2p.Para.Provider.{
  Key, Key-discrete, key_eq, settle_key, Transport, Registry, create_backend, remember,
  start_settled, find_or_start,
}

-- To settle a settled key changes nothing.
pub settle_key_again :
    (fs : FileSystem)
    → IsPosix fs
    → (key : Key) → settle_key fs (settle_key fs key) ≡ settle_key fs key
unfolding settle_key
settle_key_again fs posix none = refl
settle_key_again fs posix (some config) = elim (Option-cases config.data_dir) [
  | inl e ↦ ground arith
  | inr (dir, e) ↦ ground (arith, canonical_dir_again fs posix dir)
]

insert_twice_at :
    {V : Type 0} (key : Key) (b : V) (m : HashMap Key V) (q : Key)
    → HashMap.insert key b m q ≡ HashMap.insert key b (HashMap.insert key b m) q
insert_twice_at key b m q = ground arith

module _ (T : Transport) (ring : Bool) where
  open T use {World, Backend}

  -- Every live node is found under the settled name too.
  abbrev pub IsSettled : FileSystem → Registry World Backend → Type 0
  IsSettled fs r =
      (key : Key) (b : Backend) → r.nodes key ≡ some b → r.nodes (settle_key fs key) ≡ some b

  -- What a call makes of a new backend.
  abbrev filed :
      Key → Key → Result Backend × Registry World Backend → Result Backend × Registry World Backend
  filed key settled (ok b, r) =
      (ok b, record r { nodes = HashMap.insert settled b (HashMap.insert key b r.nodes) })
  filed key settled (err e, r) = (err e, r)

  pub find_live :
      (fs : FileSystem) (key : Key) (r : Registry World Backend) (b : Backend)
      → r.nodes key ≡ some b
      → find_or_start T ring fs key r ≡ (ok b, r)
  unfolding find_or_start
  find_live fs key r b h = ground arith

  pub find_aliased :
      (fs : FileSystem) (key : Key) (r : Registry World Backend) (b : Backend)
      → r.nodes key ≡ none
      → r.nodes (settle_key fs key) ≡ some b
      → find_or_start T ring fs key r ≡ (ok b, record r { nodes = HashMap.insert key b r.nodes })
  unfolding find_or_start
  find_aliased fs key r b h k = ground arith

  start_moved :
      (key settled : Key) (r : Registry World Backend)
      → start_settled T ring key settled true r
        ≡ filed key settled (create_backend T ring settled r)
  unfolding start_settled remember
  start_moved key settled r = elim (Result-cases (create_backend T ring settled r).0) [
    | inl (b, e) ↦ ground arith
    | inr (e, h) ↦ ground arith
  ]

  insert_twice :
      (key : Key) (b : Backend) (m : HashMap Key Backend)
      → HashMap.insert key b m ≡ HashMap.insert key b (HashMap.insert key b m)
  insert_twice key b m = fun_ext (λ q. insert_twice_at key b m q)

  start_stayed :
      (key : Key) (r : Registry World Backend)
      → start_settled T ring key key false r ≡ filed key key (create_backend T ring key r)
  unfolding start_settled remember
  start_stayed key r = elim (Result-cases (create_backend T ring key r).0) [
    | inl (b, e) ↦ ground (arith, insert_twice key b (create_backend T ring key r).1.nodes)
    | inr (e, h) ↦ ground arith
  ]

  find_new :
      (fs : FileSystem) (key : Key) (r : Registry World Backend)
      → r.nodes key ≡ none
      → r.nodes (settle_key fs key) ≡ none
      → find_or_start T ring fs key r
        ≡ filed key (settle_key fs key) (create_backend T ring (settle_key fs key) r)
  unfolding find_or_start
  find_new fs key r h k = elim (Key-discrete (settle_key fs key) key) [
    | yes p ↦ ground (arith, start_stayed key r)
    | no p ↦ ground (arith, start_moved key (settle_key fs key) r)
  ]

  create_backend-nodes :
      (key : Key) (r : Registry World Backend) → (create_backend T ring key r).1.nodes ≡ r.nodes
  unfolding create_backend
  create_backend-nodes none r = refl
  create_backend-nodes (some config) r = ground arith

  -- The nodes after a call for a key.
  data Nodes (fs : FileSystem) (key : Key) (r : Registry World Backend) : Type 0 where
    same : (find_or_start T ring fs key r).1.nodes ≡ r.nodes → Nodes fs key r
    alias :
        (b : Backend)
        → r.nodes key ≡ none
        → r.nodes (settle_key fs key) ≡ some b
        → (find_or_start T ring fs key r).1.nodes ≡ HashMap.insert key b r.nodes
        → Nodes fs key r
    new :
        (b : Backend)
        → r.nodes key ≡ none
        → r.nodes (settle_key fs key) ≡ none
        → (find_or_start T ring fs key r).1.nodes
          ≡ HashMap.insert (settle_key fs key) b (HashMap.insert key b r.nodes)
        → Nodes fs key r

  find-nodes : (fs : FileSystem) (key : Key) (r : Registry World Backend) → Nodes fs key r
  find-nodes fs key r = elim (Option-cases (r.nodes key)) [
    | inr (b, h) ↦ same (ground (arith, find_live fs key r b h))
    | inl h ↦ elim (Option-cases (r.nodes (settle_key fs key))) [
      | inr (b, k) ↦ alias b h k (ground (arith, find_aliased fs key r b h k))
      | inl k ↦ elim (Result-cases (create_backend T ring (settle_key fs key) r).0) [
        | inl (b, e) ↦
            new b h k
              (ground (arith, find_new fs key r h k, create_backend-nodes (settle_key fs key) r))
        | inr (e, f) ↦
            same (ground (arith, find_new fs key r h k, create_backend-nodes (settle_key fs key) r))
      ]
    ]
  ]

  -- Nothing is forgotten.
  pub find-keeps :
      (fs : FileSystem) (key q : Key) (b : Backend) (r : Registry World Backend)
      → r.nodes q ≡ some b
      → (find_or_start T ring fs key r).1.nodes q ≡ some b
  find-keeps fs key q b r h = elim (find-nodes fs key r) [
    | same e ↦ rw e h
    | alias c n k e ↦ rw e (ground arith)
    | new c n k e ↦ rw e (ground arith)
  ]

  pub find-IsSettled :
      (fs : FileSystem) (posix : IsPosix fs) (key : Key)
      → Keeps (IsSettled fs) (find_or_start T ring fs key)
  find-IsSettled fs posix key r h = elim (find-nodes fs key r) [
    | same e ↦ λ q c. ground (arith, e, h q c)
    | alias b n k e ↦ λ q c. ground (arith, e, h q c)
    | new b n k e ↦ λ q c. ground (arith, e, h q c, settle_key_again fs posix key)
  ]

  -- A call that succeeds leaves its backend under the key.
  pub find-filed :
      (fs : FileSystem) (key : Key) (b : Backend) (r : Registry World Backend)
      → (find_or_start T ring fs key r).0 ≡ ok b
      → (find_or_start T ring fs key r).1.nodes key ≡ some b
  find-filed fs key b r h = elim (Option-cases (r.nodes key)) [
    | inr (c, k) ↦ ground (arith, find_live fs key r c k)
    | inl k ↦ elim (Option-cases (r.nodes (settle_key fs key))) [
      | inr (c, l) ↦ ground (arith, find_aliased fs key r c k l)
      | inl l ↦ elim (Result-cases (create_backend T ring (settle_key fs key) r).0) [
        | inl (c, e) ↦ ground (arith, find_new fs key r k l)
        | inr (e, f) ↦ ground (arith, find_new fs key r k l)
      ]
    ]
  ]
