-- ===== src/Para/Directory/Again.antt =====
-- To resolve a name again, on the file system as it still is, changes nothing.
use mathlib.Core.List.{append_assoc, append-nil}
use para_p2p.Common.{
  ◌≡◌, ◌⊎◌, inl, inr, refl, sym, ◌∙◌, ap, String, List, [], ◌∷◌, ◌++◌, none, some, unwrap_or,
  Option-cases,
}
use para_p2p.Common.FilePath.{PathBuf, root, parent_dir, normal, below}
use para_p2p.Para.Directory.{FileSystem, IsPosix, climb, canonical_dir}

below-append :
    (names rest : List String) (p : PathBuf) → below (names ++ rest) p ≡ below names (below rest p)
below-append [] rest p = refl
below-append (n ∷ names) rest p = ap (◌∷◌ (normal n)) (below-append names rest p)

module _ (fs : FileSystem) where
  -- None of the paths from `p` on exists.
  abbrev Missing : List String → PathBuf → Type 0
  Missing [] p = Unit {0}
  Missing (n ∷ names) p = (fs.canonicalize (below (n ∷ names) p) ≡ none) × Missing names p

  Missing-append :
      (names : List String) (n : String) (p : PathBuf)
      → Missing names (normal n ∷ p)
      → fs.canonicalize (normal n ∷ p) ≡ none
      → Missing (names ++ (n ∷ [])) p
  Missing-append [] n p h k = (k, tt)
  Missing-append (m ∷ names) n p h k =
      (rw (below-append names (n ∷ []) p) h.0, Missing-append names n p h.1 k)

  -- A path that is resolved as far as it exists.
  abbrev IsResolved : PathBuf → Type 0
  IsResolved p =
      (names : List String) × (r : PathBuf) × (p ≡ below names r)
      × (fs.canonicalize r ≡ some r)
      × Missing names r

  module _ (posix : IsPosix fs) where
    Missing-canonical :
        (names : List String) (p r : PathBuf)
        → fs.canonicalize p ≡ some r
        → Missing names p
        → Missing names r
    Missing-canonical [] p r e h = tt
    Missing-canonical (n ∷ []) p r e h = (sym (posix.canonicalize_below p r n e) ∙ h.0, tt)
    Missing-canonical (n ∷ m ∷ names) p r e h =
        let k : Missing (m ∷ names) r = Missing-canonical (m ∷ names) p r e h.1 in
        (posix.canonicalize_missing (below (m ∷ names) r) n k.0, k)

    resolved :
        (names : List String) (p r : PathBuf)
        → fs.canonicalize p ≡ some r
        → Missing names p
        → IsResolved (below names r)
    resolved names p r e h =
        (names, r, refl, posix.canonicalize_again p r e, Missing-canonical names p r e h)

    -- The loop gives up and answers the absolute path, or resolves as much as exists.
    climb-cases :
        (absolute probe : PathBuf) (tail : List String)
        → Missing tail probe
        → (climb fs absolute probe tail ≡ absolute) ⊎ IsResolved (climb fs absolute probe tail)
    unfolding climb
    climb-cases absolute [] tail h = elim (Option-cases (fs.canonicalize [])) [
      | inl e ↦ inl (rw (e, climb))
      | inr (r, e) ↦ inr (rw (e, climb) (resolved tail [] r e h))
    ]
    climb-cases absolute (normal n ∷ parent) tail h =
        elim (Option-cases (fs.canonicalize (normal n ∷ parent))) [
          | inl e ↦
              rw (e, climb)
                (climb-cases absolute parent (tail ++ (n ∷ [])) (Missing-append tail n parent h e))
          | inr (r, e) ↦ inr (rw (e, climb) (resolved tail (normal n ∷ parent) r e h))
        ]
    climb-cases absolute (root ∷ parent) tail h =
        elim (Option-cases (fs.canonicalize (root ∷ parent))) [
          | inl e ↦ inl (rw (e, climb))
          | inr (r, e) ↦ inr (rw (e, climb) (resolved tail (root ∷ parent) r e h))
        ]
    climb-cases absolute (parent_dir ∷ parent) tail h =
        elim (Option-cases (fs.canonicalize (parent_dir ∷ parent))) [
          | inl e ↦ inl (rw (e, climb))
          | inr (r, e) ↦ inr (rw (e, climb) (resolved tail (parent_dir ∷ parent) r e h))
        ]

  climb_here :
      (absolute r : PathBuf) (tail : List String)
      → fs.canonicalize r ≡ some r
      → climb fs absolute r tail ≡ below tail r
  unfolding climb
  climb_here absolute [] tail e = rw (e, climb)
  climb_here absolute (normal n ∷ r) tail e = rw (e, climb)
  climb_here absolute (root ∷ r) tail e = rw (e, climb)
  climb_here absolute (parent_dir ∷ r) tail e = rw (e, climb)

  climb_resolved :
      (absolute r : PathBuf) (names tail : List String)
      → fs.canonicalize r ≡ some r
      → Missing names r
      → climb fs absolute (below names r) tail ≡ below (tail ++ names) r
  unfolding climb
  climb_resolved absolute r [] tail e h =
      climb_here absolute r tail e ∙ ap (λ t. below t r) (sym (append-nil tail))
  climb_resolved absolute r (n ∷ names) tail e h =
      rw (h.0, climb)
        (climb_resolved absolute r names (tail ++ (n ∷ [])) e h.1
          ∙ ap (λ t. below t r) (append_assoc tail (n ∷ []) names))

  canonical_dir_resolved : IsPosix fs → (p : PathBuf) → IsResolved p → canonical_dir fs p ≡ p
  unfolding canonical_dir
  canonical_dir_resolved posix p (names, r, e, here, missing) =
      rw (e, posix.absolute_canonical r r names here)
        (climb_resolved (below names r) r names [] here missing)

  canonical_dir_from :
      (dir q : PathBuf) → fs.absolute dir ≡ some q → canonical_dir fs dir ≡ climb fs q q []
  unfolding canonical_dir
  canonical_dir_from dir q e = rw e

  -- Where no ancestor resolves, the absolute path is the name.
  canonical_dir_absolute :
      IsPosix fs
      → (dir : PathBuf) → canonical_dir fs dir ≡ unwrap_or (fs.absolute dir) dir
      → canonical_dir fs (canonical_dir fs dir) ≡ canonical_dir fs dir
  canonical_dir_absolute posix dir h = elim (Option-cases (fs.absolute dir)) [
    | inl e ↦ ap (canonical_dir fs) (rw e at h)
    | inr (q, e) ↦
        let k : canonical_dir fs dir ≡ q = rw e at h in
        ap (canonical_dir fs) k
        ∙ canonical_dir_from q q (posix.absolute_again dir q e)
        ∙ sym (canonical_dir_from dir q e)
  ]

  -- On a file system that resolves paths as documented and does not change, a directory's name,
  -- once resolved, resolves to itself, whether the directory exists, a part of its path or nothing
  -- of it.
  pub canonical_dir_again :
      IsPosix fs → (dir : PathBuf) → canonical_dir fs (canonical_dir fs dir) ≡ canonical_dir fs dir
  unfolding canonical_dir
  canonical_dir_again posix dir =
      let absolute : PathBuf = unwrap_or (fs.absolute dir) dir in
      elim (climb-cases posix absolute absolute [] tt) [
        | inl e ↦ canonical_dir_absolute posix dir e
        | inr h ↦ canonical_dir_resolved posix (canonical_dir fs dir) h
      ]
