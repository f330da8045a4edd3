-- ===== src/Net/Config/DataDir.antt =====
-- The default data directory of crates/noeta-para-p2p-net/src/p2p_node.rs: `default_data_dir` and
-- what it calls. The environment and the platform are parameters.
use Prim.Native.Char.{Char, code}
use para_p2p.Common.{
  ℕ, ◌∷◌, String, Bool, true, false, ◌||◌, ◌&&◌, leb, ◌==◌, if◌then◌else◌, Option, none, some,
}
use para_p2p.Common.FilePath.{PathBuf, join, parent_dir}
use para_p2p.Common.Order.{string_discrete}

-- `std::env::var` (or `var_os`), the stem of `current_exe`, and `PathBuf::from`.
pub record Environment : Type 0 where
  pub var : String → Option String
  pub exe_stem : Option String
  pub path : String → PathBuf

-- `target_os`
pub data Platform : Type 0 where
  macos : Platform
  windows : Platform
  other : Platform

abbrev pub is_empty : String → Bool
is_empty String.[] = true
is_empty (String.◌∷◌ c s) = false

-- `Option::filter` of what is not empty, and `Option::or_else`
abbrev pub nonempty : Option String → Option String
nonempty none = none
nonempty (some s) = if is_empty s then none else some s

abbrev pub or_else {ℓ} : {A : Type ℓ} → Option A → Option A → Option A
or_else none b = b
or_else (some a) b = some a

abbrev pub and_then {ℓ κ} : {A : Type ℓ} {B : Type κ} → Option A → (A → Option B) → Option B
and_then none f = none
and_then (some a) f = f a

unfoldable pub env_path : Environment → String → Option PathBuf
env_path env var = and_then (nonempty (env.var var)) (λ v. some (env.path v))

unfoldable pub home : Environment → Platform → Option PathBuf
unfolding env_path
home env Platform.windows = env_path env "USERPROFILE"
home env _ = env_path env "HOME"

unfoldable pub xdg_data_root : Environment → Platform → Option PathBuf
unfolding env_path home
xdg_data_root env Platform.macos =
    and_then (home env Platform.macos) (λ h. some (join (join h "Library") "Application Support"))
xdg_data_root env Platform.windows =
    or_else (env_path env "LOCALAPPDATA")
      (and_then (home env Platform.windows) (λ h. some (join (join h "AppData") "Local")))
xdg_data_root env Platform.other =
    or_else (env_path env "XDG_DATA_HOME")
      (and_then (home env Platform.other) (λ h. some (join (join h ".local") "share")))

unfoldable pub is_between : ℕ → ℕ → ℕ → Bool
is_between low high n = leb low n && leb n high

-- `is_ascii_alphanumeric`, or one of `.`, `-` and `_`
unfoldable pub is_kept : Char → Bool
unfolding is_between
is_kept c =
    is_between b'0' b'9' (code c)
    || is_between b'A' b'Z' (code c)
    || is_between b'a' b'z' (code c)
    || (code c == b'.')
    || (code c == b'-')
    || (code c == b'_')

unfoldable pub replace_chars : String → String
unfolding is_kept
replace_chars String.[] = String.[]
replace_chars (String.◌∷◌ c s) = String.◌∷◌ (if is_kept c then c else "-") (replace_chars s)

unfoldable pub sanitize_segment : String → String
unfolding replace_chars
sanitize_segment raw = let out = replace_chars raw in if is_empty out then "noeta" else out

unfoldable pub resolve_app : Environment → Option String → String
unfolding sanitize_segment
resolve_app env app_id =
    sanitize_segment
      (elim (or_else (nonempty (env.var "NOETA_P2P_APP")) (or_else app_id env.exe_stem)) [
        | some raw ↦ raw
        | none ↦ "noeta"
      ])

-- `Path::join` of a name that may be one of the two special ones.
unfoldable pub join_segment : PathBuf → String → PathBuf
join_segment p s = elim (string_discrete s "..") [
  | yes _ ↦ parent_dir ∷ p
  | no _ ↦ elim (string_discrete s ".") [ yes _ ↦ p | no _ ↦ join p s ]
]

unfoldable pub default_data_dir : Environment → Platform → Option String → Option PathBuf
unfolding env_path resolve_app xdg_data_root join_segment
default_data_dir env platform app_id = or_else (env_path env "NOETA_P2P_DIR") (
    and_then (xdg_data_root env platform)
      (λ data_root. some (join (join_segment data_root (resolve_app env app_id)) "p2p")))
