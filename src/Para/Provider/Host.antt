-- ===== src/Para/Provider/Host.antt =====
-- The calls of crates/noeta-para-p2p/src/provider.rs that ask the host: which node is the default,
-- and whether there may be a real one. `real_p2p` is what the host answers, with its `app_id`.
use para_p2p.Common.{String, Bool, true, false, Option, none, some}
use para_p2p.Common.Io.{Io, ◌>>=◌}
use para_p2p.Para.Directory.{FileSystem}
use para_p2p.Para.Provider.{NodeConfig, Transport, Registry, on_world, backend_in}

-- `Option::is_some`
abbrev pub is_some {ℓ} : {A : Type ℓ} → Option A → Bool
is_some none = false
is_some (some a) = true

unfoldable pub host_node_config : Option (Option String) → Option NodeConfig
host_node_config none = none
host_node_config (some app_id) = some (record { app_id = app_id; data_dir = none })

module _ (T : Transport) (ring : Bool) (fs : FileSystem) (real_p2p : Option (Option String)) where
  open T use {World, Backend}

  unfoldable pub backend_for : Option NodeConfig → Io (Registry World Backend) Backend
  unfolding backend_in
  backend_for requested = backend_in T ring fs requested (is_some real_p2p)

  unfoldable pub p2p_backend : Io (Registry World Backend) Backend
  unfolding backend_for host_node_config
  p2p_backend = backend_for (host_node_config real_p2p)

  unfoldable pub with_node :
      {R : Type 0} → Option NodeConfig → (Backend → Io World R) → Io (Registry World Backend) R
  unfolding backend_for on_world
  with_node config f = do backend ← backend_for config; on_world T (f backend)

  unfoldable pub with_p2p : {R : Type 0} → (Backend → Io World R) → Io (Registry World Backend) R
  unfolding p2p_backend on_world
  with_p2p f = do backend ← p2p_backend; on_world T (f backend)
