-- ===== src/Config/Examples.antt =====
-- A configuration from the defaults.
use grpc_mesh_server.Prelude.{◌≡◌, ◌↔◌, Bool, false, [], some, codes, Str}
use grpc_mesh_server.Config.{Config, file_not_found, load, loaded}
use grpc_mesh_server.Config.Checks.{IsReadable, IsPaired, load_iff}

abbrev plain : Config
plain = record {
  server = record { grpc_address = codes ":50051"; metrics_address = codes ":9090" };
  listener = record { address = codes ":8443"; cert_file = []; key_file = []; ca_file = [] };
  logging = record { level = codes "info" };
  auth = record { enabled = false; allowed_tokens = []; node_tokens = [] };
}

abbrev nothing_exists : Str → Bool
nothing_exists path = false

load_iff_example :
    (load nothing_exists [] file_not_found (some plain) ≡ loaded plain)
    ↔ ((plain ≡ plain) × IsReadable [] file_not_found × IsPaired nothing_exists plain)
load_iff_example = load_iff nothing_exists [] file_not_found plain plain
