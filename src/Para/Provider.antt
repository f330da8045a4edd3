-- ===== src/Para/Provider.antt =====
-- The registry of nodes of crates/noeta-para-p2p/src/provider.rs: one node for each directory, and
-- one broker in their place where the host permits no networking.
pub mod Calls
pub mod OneNode
pub mod Sandbox
pub mod Host
use para_p2p.Common.{String, Bool, true, false, ◌&&◌, Option, none, some, if◌then◌else◌}
use para_p2p.Common.FilePath.{PathBuf, Component-discrete}
use para_p2p.Common.HashMap
use para_p2p.Common.HashMap.{HashMap, Eq}
use para_p2p.Common.Io.{Io, ok, pure, get, modify, ◌>>=◌, ◌>>◌}
use para_p2p.Common.Order.{string_discrete}
use para_p2p.Net.Config
use para_p2p.Net.Config.{P2pConfig}
use para_p2p.Para.Directory.{FileSystem, canonical_dir}

pub record NodeConfig : Type 0 where
  pub app_id : Option String
  pub data_dir : Option PathBuf

unfoldable pub at : FileSystem → PathBuf → NodeConfig
at fs dir = record { app_id = none; data_dir = some (canonical_dir fs dir) }

unfoldable pub with_app : NodeConfig → Option String → NodeConfig
with_app config app_id = record config { app_id = app_id }

-- The name of a node; the broker has none.
abbrev pub Key : Type 0
Key = Option NodeConfig

unfoldable pub Key-discrete : Discrete Key
unfolding string_discrete Component-discrete
Key-discrete = hlevel (string_discrete, Component-discrete)

instance abbrev pub key_eq : Eq Key
key_eq = record { decide = Key-discrete }

-- `cfg!(feature = "ring-p2p")` is `ring`.
unfoldable pub backend_key : Bool → Option NodeConfig → Bool → Key
backend_key ring none real_permitted = none
backend_key ring (some config) real_permitted = if real_permitted && ring then some config else none

unfoldable pub settle_key : FileSystem → Key → Key
settle_key fs none = none
settle_key fs (some config) = elim config.data_dir [
  | none ↦ some config
  | some dir ↦ some (record config { data_dir = some (canonical_dir fs dir) })
]

unfoldable pub transport_config : NodeConfig → P2pConfig
transport_config config =
    Config.with_app (elim config.data_dir [ some dir ↦ Config.at dir | none ↦ Config.persistent ])
      config.app_id

-- `P2pBackend`s and how they come about: `P2pNode::start_with_config`, which may fail, and a new
-- `P2pBroker`.
pub record Transport : Type 1 where
  pub World : Type 0
  pub Backend : Type 0
  pub start_with_config : P2pConfig → Io World Backend
  pub new_broker : World → Backend × World

-- The ctx state of the extension beside the world that its nodes live in.
pub record Registry (World Backend : Type 0) : Type 0 where
  pub nodes : HashMap Key Backend
  pub world : World

abbrev pub new_state : {World Backend : Type 0} → World → Registry World Backend
new_state world = record { nodes = HashMap.empty; world = world }

module _ (T : Transport) where
  open T use {World, Backend}

  unfoldable pub loopback_backend : Io (Registry World Backend) Backend
  loopback_backend r = (ok (T.new_broker r.world).0, record r { world = (T.new_broker r.world).1 })

  -- A call that reaches the world behind the registry.
  unfoldable pub on_world : {A : Type 0} → Io World A → Io (Registry World Backend) A
  on_world m r = ((m r.world).0, record r { world = (m r.world).1 })

  unfoldable pub create_backend : Bool → Key → Io (Registry World Backend) Backend
  unfolding loopback_backend on_world transport_config
  create_backend ring none = loopback_backend
  create_backend ring (some config) =
      if ring then on_world (T.start_with_config (transport_config config)) else loopback_backend

  unfoldable pub remember : Key → Backend → Io (Registry World Backend) (Unit {0})
  remember key backend = modify (λ r. record r { nodes = HashMap.insert key backend r.nodes })

  -- What follows a miss: `moved` is whether the key has another name by now.
  unfoldable pub start_settled : Bool → Key → Key → Bool → Io (Registry World Backend) Backend
  unfolding create_backend remember
  start_settled ring key settled moved = do
    backend ← create_backend ring settled
    (if moved then remember key backend else pure tt)
    remember settled backend
    pure backend

  unfoldable pub find_or_start : Bool → FileSystem → Key → Io (Registry World Backend) Backend
  unfolding settle_key start_settled remember
  find_or_start ring fs key = do
    r ← get
    elim (HashMap.get r.nodes key) [
      | some backend ↦ pure backend
      | none ↦
          let settled = settle_key fs key in
          elim (Key-discrete settled key) [
            | yes _ ↦ start_settled ring key settled false
            | no _ ↦ elim (HashMap.get r.nodes settled) [
              | some backend ↦ (do remember key backend; pure backend)
              | none ↦ start_settled ring key settled true
            ]
          ]
    ]

  unfoldable pub backend_in :
      Bool → FileSystem → Option NodeConfig → Bool → Io (Registry World Backend) Backend
  unfolding backend_key find_or_start
  backend_in ring fs requested real_permitted =
      find_or_start ring fs (backend_key ring requested real_permitted)
