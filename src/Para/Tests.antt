-- ===== src/Para/Tests.antt =====
-- Runs of crates/noeta-para-p2p on small stand-ins for its host, and its theorems at inputs that
-- meet their hypotheses.
use para_p2p.Common.{
  ℕ, ◌+◌, ◌≡◌, refl, String, Bool, true, false, [], ◌∷◌, Option, none, some, arith, Option-cases,
  inl, inr, if◌then◌else◌, ◌||◌, ◌&&◌,
}
use para_p2p.Common.BTree.Sets.{is_eq}
use para_p2p.Common.FilePath.{PathBuf, root, parent_dir, normal}
use para_p2p.Common.Io.{Io, ok}
use para_p2p.Common.Order.{string_ord}
use para_p2p.Net.Config.{P2pConfig}
use para_p2p.Para.Directory.{FileSystem, IsPosix, canonical_dir}
use para_p2p.Para.Directory.Again.{canonical_dir_again}
use para_p2p.Para.Provider.{
  NodeConfig, Key-discrete, Transport, Registry, new_state, settle_key, backend_in,
}
use para_p2p.Para.Provider.OneNode.{after_requests, backend_in_pinned, backend_in_one_node}
use para_p2p.Para.Provider.Sandbox.{backend_in_sandboxed}

abbrev srv : PathBuf
srv = normal "srv" ∷ root ∷ []

abbrev is_named : String → String → Bool
is_named a b = is_eq (string_ord.cmp a b)

-- What stands under a name in a directory: below the root the directory "srv" and, if it has been
-- made, the link "link" to it.
abbrev child : Bool → String → PathBuf → Option PathBuf
child linked n (root ∷ []) =
    if is_named n "srv" || (linked && is_named n "link") then some srv else none
child linked n _ = none

abbrev look : Bool → PathBuf → Option PathBuf
look linked [] = none
look linked (normal n ∷ p) = elim (look linked p) [ none ↦ none | some r ↦ child linked n r ]
look linked (root ∷ []) = some (root ∷ [])
look linked (_ ∷ _) = none

abbrev disk : Bool → FileSystem
disk linked = record { canonicalize = look linked; absolute = some }

child-srv : (linked : Bool) (n : String) (p r : PathBuf) → child linked n p ≡ some r → r ≡ srv
child-srv linked n (root ∷ []) r h = ground arith
child-srv linked n _ r h = cc

look-again : (linked : Bool) (p r : PathBuf) → look linked p ≡ some r → look linked r ≡ some r
look-again linked [] r h = cc
look-again linked (root ∷ []) r h = ground arith
look-again linked (root ∷ x ∷ p) r h = cc
look-again linked (parent_dir ∷ p) r h = cc
look-again linked (normal n ∷ p) r h = elim (Option-cases (look linked p)) [
  | inl e ↦ absurd (ground arith)
  | inr (s, e) ↦ rw (child-srv linked n s r (ground arith)) refl
]

look-below :
    (linked : Bool) (p r : PathBuf) (n : String)
    → look linked p ≡ some r
    → look linked (normal n ∷ p) ≡ look linked (normal n ∷ r)
look-below linked p r n h = ground (arith, look-again linked p r h)

disk-IsPosix : (linked : Bool) → IsPosix (disk linked)
disk-IsPosix linked = record {
  canonicalize_again = look-again linked;
  canonicalize_below = look-below linked;
  canonicalize_missing = λ p n h. rw h refl;
  absolute_canonical = λ p r names h. refl;
  absolute_again = λ p q h. refl;
}

-- Through the link, to a directory that does not exist yet.
abbrev alice : PathBuf
alice = normal "alice" ∷ normal "link" ∷ root ∷ []

alice_unlinked : canonical_dir (disk false) alice ≡ alice
unfolding canonical_dir
alice_unlinked = refl

alice_linked : canonical_dir (disk true) alice ≡ normal "alice" ∷ srv
unfolding canonical_dir
alice_linked = refl

canonical_dir_again_example :
    canonical_dir (disk true) (canonical_dir (disk true) alice) ≡ canonical_dir (disk true) alice
canonical_dir_again_example = canonical_dir_again (disk true) (disk-IsPosix true) alice

-- Backends are numbered as they are made.
abbrev counting : Transport
counting = record {
  World = ℕ;
  Backend = ℕ;
  start_with_config = λ config w. (ok w, w + 1);
  new_broker = λ w. (w, w + 1);
}

abbrev named : PathBuf → Option NodeConfig
named dir = some (record { app_id = none; data_dir = some dir })

abbrev blank : Registry ℕ ℕ
blank = new_state 0

abbrev early : Option NodeConfig
early = named alice

abbrev late : Option NodeConfig
late = named (normal "alice" ∷ srv)

one_directory : settle_key (disk true) early ≡ settle_key (disk true) late
unfolding settle_key canonical_dir
one_directory = refl

early_starts : (backend_in counting true (disk true) early true blank).0 ≡ ok 0
unfolding backend_in canonical_dir Key-discrete
early_starts = refl

-- The registry once the early name has been used, and then another.
abbrev used : Registry ℕ ℕ
used = after_requests counting true true ((disk true, early) ∷ (disk true, named srv) ∷ []) blank

backend_in_one_node_example :
    ((backend_in counting true (disk true) late true used).0 ≡ ok 0)
    × ((backend_in counting true (disk true) late true used).1.world ≡ used.world)
backend_in_one_node_example =
    backend_in_one_node counting true true (disk true) (disk-IsPosix true) early late
      (named srv ∷ []) 0 blank (λ key b h. cc h) one_directory early_starts

-- The early name is used before the link is made, and again after it.
early_starts_unlinked : (backend_in counting true (disk false) early true blank).0 ≡ ok 0
unfolding backend_in canonical_dir Key-discrete
early_starts_unlinked = refl

abbrev moved : Registry ℕ ℕ
moved = after_requests counting true true ((disk false, early) ∷ (disk true, named srv) ∷ []) blank

backend_in_pinned_example : backend_in counting true (disk true) early true moved ≡ (ok 0, moved)
backend_in_pinned_example =
    backend_in_pinned counting true true (disk false) (disk true) early
      ((disk true, named srv) ∷ []) 0 blank early_starts_unlinked

-- Where the link appears after a name has been used, the other name starts a second node on the
-- directory.
two_nodes : (backend_in counting true (disk true) late true moved).0 ≡ ok 2
unfolding backend_in canonical_dir Key-discrete
two_nodes = refl

backend_in_sandboxed_example :
    (b : ℕ) × ((backend_in counting true (disk true) early false blank).0 ≡ ok b)
    × ((later : FileSystem) (p : Option NodeConfig)
        → let s : Registry ℕ ℕ = (backend_in counting true (disk true) early false blank).1 in
          backend_in counting true later p false s ≡ (ok b, s))
    × ((start : P2pConfig → Io ℕ ℕ)
        → backend_in
            (record counting { start_with_config = start })
            true
            (disk true)
            early
            false
            blank
          ≡ backend_in counting true (disk true) early false blank)
backend_in_sandboxed_example = backend_in_sandboxed counting true false (disk true) early blank refl
