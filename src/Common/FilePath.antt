-- ===== src/Common/FilePath.antt =====
-- `std::path`: a path is compared by its components.
use mathlib.Core.List.{List, [], ◌∷◌}
use Prim.Native.String.{String}
use para_p2p.Common.Order.{string_discrete}

-- `std::path::Component`, as far as the code tells them apart.
pub data Component : Type 0 where
  root : Component
  parent_dir : Component
  normal : String → Component

unfoldable pub Component-discrete : Discrete Component
unfolding string_discrete
Component-discrete = hlevel string_discrete

-- The last component stands first.
abbrev pub PathBuf : Type 0
PathBuf = List Component

-- `Path::join` of one name.
abbrev pub join : PathBuf → String → PathBuf
join p n = normal n ∷ p

-- The path that the names lead to from a directory, the last one first.
abbrev pub below : List String → PathBuf → PathBuf
below [] p = p
below (n ∷ names) p = normal n ∷ below names p
