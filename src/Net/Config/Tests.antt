-- ===== src/Net/Config/Tests.antt =====
-- Directories of applications on a platform without a home, but with a data directory.
use para_p2p.Common.{◌≡◌, refl, [], ◌∷◌, none, some}
use para_p2p.Common.FilePath.{PathBuf, root, normal, parent_dir}
use para_p2p.Common.Order.{string_discrete}
use para_p2p.Net.Config.DataDir.{Environment, Platform, sanitize_segment, default_data_dir}

abbrev data_root : PathBuf
data_root = normal "data" ∷ root ∷ []

abbrev environment : Environment
environment = record {
  var = λ v. elim (string_discrete v "XDG_DATA_HOME") [ yes _ ↦ some "/data" | no _ ↦ none ];
  exe_stem = none;
  path = λ v. data_root;
}

default-chat :
    default_data_dir environment Platform.other (some "acme/chat")
    ≡ some (normal "p2p" ∷ normal "acme-chat" ∷ data_root)
unfolding default_data_dir string_discrete
default-chat = refl

default-parent :
    default_data_dir environment Platform.other (some "..")
    ≡ some (normal "p2p" ∷ parent_dir ∷ data_root)
unfolding default_data_dir string_discrete
default-parent = refl

-- Two applications whose names differ in a separator.
sanitize-separator : sanitize_segment "acme/chat" ≡ sanitize_segment "acme-chat"
unfolding sanitize_segment
sanitize-separator = refl

sanitize-parent : sanitize_segment ".." ≡ ".."
unfolding sanitize_segment
sanitize-parent = refl

sanitize-none : sanitize_segment "" ≡ "noeta"
unfolding sanitize_segment
sanitize-none = refl
