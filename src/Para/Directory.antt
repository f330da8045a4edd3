-- ===== src/Para/Directory.antt =====
-- `canonical_dir` of crates/noeta-para-p2p/src/provider.rs, over the file system as a parameter:
-- one spelling for one directory, also for one that does not exist yet.
pub mod Again
use para_p2p.Common.{◌≡◌, String, List, [], ◌∷◌, ◌++◌, Option, none, some, unwrap_or}
use para_p2p.Common.FilePath.{PathBuf, normal, below}

-- What the code asks of the file system, at one moment.
pub record FileSystem : Type 0 where
  -- `Path::canonicalize`, where an error is `none`
  pub canonicalize : PathBuf → Option PathBuf
  -- `std::path::absolute`, where an error is `none`
  pub absolute : PathBuf → Option PathBuf

module _ (fs : FileSystem) where
  -- The loop: the longest ancestor of `probe` that exists, with the names below it.
  unfoldable pub climb : PathBuf → PathBuf → List String → PathBuf
  climb absolute [] tail = elim (fs.canonicalize []) [
    | some resolved ↦ below tail resolved
    | none ↦ absolute
  ]
  climb absolute (normal n ∷ parent) tail =
      let above = climb absolute parent (tail ++ (n ∷ [])) in
      elim (fs.canonicalize (normal n ∷ parent)) [
        | some resolved ↦ below tail resolved
        | none ↦ above
      ]
  climb absolute (name ∷ parent) tail = elim (fs.canonicalize (name ∷ parent)) [
    | some resolved ↦ below tail resolved
    | none ↦ absolute
  ]

  unfoldable pub canonical_dir : PathBuf → PathBuf
  unfolding climb
  canonical_dir dir =
      let absolute : PathBuf = unwrap_or (fs.absolute dir) dir in climb absolute absolute []

-- What the system documents of the two calls, while nothing changes the file system.
pub record IsPosix (fs : FileSystem) : Type 0 where
  -- The canonical path of a directory is its own canonical path.
  pub canonicalize_again : (p r : PathBuf) → fs.canonicalize p ≡ some r → fs.canonicalize r ≡ some r
  -- A name below a directory is looked up in that directory, whatever its spelling.
  pub canonicalize_below :
      (p r : PathBuf) (n : String)
      → fs.canonicalize p ≡ some r
      → fs.canonicalize (normal n ∷ p) ≡ fs.canonicalize (normal n ∷ r)
  -- Nothing is found below what is not there.
  pub canonicalize_missing :
      (p : PathBuf) (n : String) → fs.canonicalize p ≡ none → fs.canonicalize (normal n ∷ p) ≡ none
  -- A canonical path is absolute, and so is what lies below it.
  pub absolute_canonical :
      (p r : PathBuf) (names : List String)
      → fs.canonicalize p ≡ some r
      → fs.absolute (below names r) ≡ some (below names r)
  pub absolute_again : (p q : PathBuf) → fs.absolute p ≡ some q → fs.absolute q ≡ some q
