-- ===== src/Config.antt =====
-- backend/utils/config.py: the configuration, read from a YAML file. The parser of YAML is outside:
-- a file is what safe_load returns for it. The settings keep the values of the file unchecked, as
-- the source does.
mod Loading
use distri_store.Manifest.{◌>>=◌}
use distri_store.Prelude.{
  ℕ, Bool, false, Option, none, some, List, [], ◌∷◌, Str, codes, str_eq, if◌then◌else◌,
}
use distri_store.Prelude.Dict
use distri_store.Prelude.Dict.{Dict}
use distri_store.Dht.{str_elem}

pub data Value : Type 0 where
  text : Str → Value
  number : ℕ → Value

-- A section is a dictionary, or none for a key without a value.
abbrev pub Section : Type 0
Section = Option (Dict Value)

pub record NodeConfig : Type 0 where
  pub node_id : Value
  pub name : Value

pub record NetworkConfig : Type 0 where
  pub discovery_port : Value
  pub tcp_port : Value
  pub broadcast_address : Value
  pub discovery_interval : Value
  pub peer_timeout : Value
  pub swarm_key : Value

pub record StorageConfig : Type 0 where
  pub chunk_dir : Value
  pub chunk_size : Value
  pub max_storage_mb : Value

pub record ReplicationConfig : Type 0 where
  pub factor : Value

pub record ApiConfig : Type 0 where
  pub host : Value
  pub port : Value

pub record LoggingConfig : Type 0 where
  pub level : Value
  pub file : Value

pub record AppConfig : Type 0 where
  pub node : NodeConfig
  pub network : NetworkConfig
  pub storage : StorageConfig
  pub replication : ReplicationConfig
  pub api : ApiConfig
  pub logging : LoggingConfig

-- A keyword argument, or the default of the field.
abbrev pub field : Dict Value → Str → Value → Value
field kwargs key default = elim (Dict.get kwargs key) [ none ↦ default | some v ↦ v ]

-- The entries of a section that are fields of a dataclass.
unfoldable pub known : List Str → Dict Value → Dict Value
known fields [] = []
known fields ((k, v) ∷ raw) =
    let rest = known fields raw in if str_elem k fields then (k, v) ∷ rest else rest

unfoldable pub node_config : Dict Value → NodeConfig
node_config kwargs = record {
  node_id = field kwargs (codes "node_id") (text (codes "auto"));
  name = field kwargs (codes "name") (text (codes "node-default"));
}

unfoldable pub network_config : Dict Value → NetworkConfig
network_config kwargs = record {
  discovery_port = field kwargs (codes "discovery_port") (number 50000);
  tcp_port = field kwargs (codes "tcp_port") (number 50001);
  broadcast_address = field kwargs (codes "broadcast_address") (text (codes "255.255.255.255"));
  discovery_interval = field kwargs (codes "discovery_interval") (number 5);
  peer_timeout = field kwargs (codes "peer_timeout") (number 15);
  swarm_key = field kwargs (codes "swarm_key") (text (codes "default_distristore_secret"));
}

unfoldable pub storage_config : Dict Value → StorageConfig
storage_config kwargs = record {
  chunk_dir = field kwargs (codes "chunk_dir") (text (codes ".storage"));
  chunk_size = field kwargs (codes "chunk_size") (number 262144);
  max_storage_mb = field kwargs (codes "max_storage_mb") (number 1024);
}

unfoldable pub replication_config : Dict Value → ReplicationConfig
replication_config kwargs = record { factor = field kwargs (codes "factor") (number 3) }

unfoldable pub api_config : Dict Value → ApiConfig
api_config kwargs = record {
  host = field kwargs (codes "host") (text (codes "0.0.0.0"));
  port = field kwargs (codes "port") (number 8000);
}

unfoldable pub logging_config : Dict Value → LoggingConfig
logging_config kwargs = record {
  level = field kwargs (codes "level") (text (codes "DEBUG"));
  file = field kwargs (codes "file") (text (codes "distristore.log"));
}

-- `raw.get(name, {})` with its entries, none for the AttributeError of a section without a value.
unfoldable pub section : Dict Section → Str → Option (Dict Value)
section raw name = elim (Dict.get raw name) [ none ↦ some [] | some s ↦ s ]

abbrev pub is_auto : Value → Bool
is_auto (text t) = str_eq t (codes "auto")
is_auto (number n) = false

unfoldable pub with_node_id : Str → AppConfig → AppConfig
with_node_id fresh cfg =
    if is_auto cfg.node.node_id
    then record (cfg) { node = record (cfg.node) { node_id = text fresh } }
    else cfg

unfoldable pub build_config : Dict Section → Option AppConfig
build_config raw = do
  node_raw ← section raw (codes "node")
  network_raw ← section raw (codes "network")
  storage_raw ← section raw (codes "storage")
  replication_raw ← section raw (codes "replication")
  api_raw ← section raw (codes "api")
  logging_raw ← section raw (codes "logging")
  some (record {
    node = node_config (known (codes "node_id" ∷ codes "name" ∷ []) node_raw);
    network = network_config (
        known
          (codes "discovery_port"
            ∷ codes "tcp_port"
            ∷ codes "broadcast_address"
            ∷ codes "discovery_interval"
            ∷ codes "peer_timeout"
            ∷ codes "swarm_key"
            ∷ [])
          network_raw);
    storage =
        storage_config (
          known (codes "chunk_dir" ∷ codes "chunk_size" ∷ codes "max_storage_mb" ∷ []) storage_raw);
    replication = replication_config (known (codes "factor" ∷ []) replication_raw);
    api = api_config (known (codes "host" ∷ codes "port" ∷ []) api_raw);
    logging = logging_config (known (codes "level" ∷ codes "file" ∷ []) logging_raw);
  })

-- The file, if there is one, with none for an empty document; `fresh` is what _generate_node_id
-- returns.
unfoldable pub load_config : Str → Option (Option (Dict Section)) → Option AppConfig
load_config fresh none = some (
    with_node_id fresh (record {
      node = node_config [];
      network = network_config [];
      storage = storage_config [];
      replication = replication_config [];
      api = api_config [];
      logging = logging_config [];
    }))
load_config fresh (some content) = do
  cfg ← build_config (elim content [ none ↦ [] | some raw ↦ raw ])
  some (with_node_id fresh cfg)
