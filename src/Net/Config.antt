-- ===== src/Net/Config.antt =====
-- `P2pConfig` of crates/noeta-para-p2p-net/src/p2p_node.rs: where a node keeps its state.
pub mod DataDir
mod Tests
use para_p2p.Common.{String, Bool, true, false, Option, none, some}
use para_p2p.Common.FilePath.{PathBuf}

pub record P2pConfig : Type 0 where
  pub data_dir : Option PathBuf
  pub app_id : Option String
  pub persist : Bool

unfoldable pub persistent : P2pConfig
persistent = record { data_dir = none; app_id = none; persist = true }

unfoldable pub ephemeral : P2pConfig
ephemeral = record { data_dir = none; app_id = none; persist = false }

unfoldable pub at : PathBuf → P2pConfig
at dir = record { data_dir = some dir; app_id = none; persist = true }

unfoldable pub with_app : P2pConfig → Option String → P2pConfig
with_app config app_id = record config { app_id = app_id }
