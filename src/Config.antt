-- ===== src/Config.antt =====
-- pkg/config/config.go: the configuration and its checks. viper is a parameter: what `ReadInConfig` or
-- `ReadConfig` reports, and what `Unmarshal` makes of the files, the environment and the defaults;
-- `exists` is `os.Stat` without an error.
mod Checks
mod Examples
use grpc_mesh_server.Prelude.{
  Bool, true, false, not, ◌&&◌, ◌||◌, List, [], ◌∷◌, Option, none, some, if◌then◌else◌, Str, codes,
  is_empty,
}
use grpc_mesh_server.Map.{Map}

pub record ServerConfig : Type 0 where
  pub grpc_address : Str
  pub metrics_address : Str

pub record ListenerConfig : Type 0 where
  pub address : Str
  pub cert_file : Str
  pub key_file : Str
  pub ca_file : Str

pub record LoggingConfig : Type 0 where
  pub level : Str

pub record AuthConfig : Type 0 where
  pub enabled : Bool
  pub allowed_tokens : List Str
  pub node_tokens : Map Str Str

pub record Config : Type 0 where
  pub server : ServerConfig
  pub listener : ListenerConfig
  pub logging : LoggingConfig
  pub auth : AuthConfig

-- What reading reports; `file_not_found` is `viper.ConfigFileNotFoundError`.
pub data Reading : Type 0 where
  read file_not_found : Reading
  not_read : Str → Reading

pub data ConfigError : Type 0 where
  failed_to_read failed_to_unmarshal not_together cert_not_found key_not_found : ConfigError

pub data Loaded : Type 0 where
  loaded : Config → Loaded
  refused : ConfigError → Loaded

pub data Value : Type 0 where
  text : Str → Value
  flag : Bool → Value

-- The keys that have a default, with it, and those bound to the environment.
pub defaults : List (Str × Value)
defaults =
    (codes "server.grpc_address", text (codes ":50051"))
    ∷ (codes "server.metrics_address", text (codes ":9090"))
    ∷ (codes "listener.address", text (codes ":8443"))
    ∷ (codes "logging.level", text (codes "info"))
    ∷ (codes "auth.enabled", flag false)
    ∷ []

pub bound_keys : List Str
bound_keys =
    codes "server.grpc_address"
    ∷ codes "server.metrics_address"
    ∷ codes "listener.address"
    ∷ codes "listener.cert_file"
    ∷ codes "listener.key_file"
    ∷ codes "listener.ca_file"
    ∷ codes "logging.level"
    ∷ codes "auth.enabled"
    ∷ []

module _ (exists : Str → Bool) where
  -- Exclusive or, as `!=` on Booleans.
  abbrev differ : Bool → Bool → Bool
  differ a b = if a then not b else b

  unfoldable pub check_files : Config → Loaded
  check_files cfg =
      if differ (is_empty cfg.listener.cert_file) (is_empty cfg.listener.key_file)
      then refused not_together
      else if not (is_empty cfg.listener.cert_file) && not (exists cfg.listener.cert_file)
      then refused cert_not_found
      else if not (is_empty cfg.listener.key_file) && not (exists cfg.listener.key_file)
      then refused key_not_found
      else loaded cfg

  -- `none` is an error of `Unmarshal`.
  unfoldable pub load_from_viper : Option Config → Loaded
  unfolding check_files
  load_from_viper none = refused failed_to_unmarshal
  load_from_viper (some cfg) = check_files cfg

  unfoldable pub load : Str → Reading → Option Config → Loaded
  unfolding load_from_viper
  load path read values = load_from_viper values
  load path file_not_found values =
      if is_empty path then load_from_viper values else refused failed_to_read
  load path (not_read e) values = refused failed_to_read

  unfoldable pub load_bytes : Reading → Option Config → Loaded
  unfolding load_from_viper
  load_bytes read values = load_from_viper values
  load_bytes _ values = refused failed_to_read
