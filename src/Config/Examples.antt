-- ===== src/Config/Examples.antt =====
-- The theorems on the models of src/config.c at concrete configurations.
use khttp.Common.{
  ◌≤◌, ◌≡◌, refl, Bool, true, false, Option, none, some, List, [], ◌∷◌, ◌++◌, arith, Bytes, codes,
  str_case_eq,
}
use khttp.Config.{
  HostConfig, ServerConfig, Reading, config_server_new, config_host_new, config_server_gethost,
  update, clear_defaults,
}
use khttp.Config.Lookup.{HasName, lookup_host, gethost-lookup}
use khttp.Config.Handler.{read_all}
use khttp.Config.Handler.Defaults.{count_defaults, read_all-default}

abbrev pub a_host : Bytes → Bool → HostConfig
a_host name default = record {
  hostname = some name;
  default_host = default;
  enabled = true;
  serve_dir = some (codes "/srv");
  index_files = [];
  dir_listings = false;
}

abbrev pub a_server : List HostConfig → ServerConfig
a_server hosts = record {
  servername = codes "khttp";
  administrator = codes "khttp";
  listen_port = 80;
  hosts = hosts;
}

abbrev www : HostConfig
www = a_host (codes "www") true

abbrev files : HostConfig
files = a_host (codes "files") false

www-HasName : HasName www
www-HasName e = ground (arith, e)

gethost-lookup_example :
    (config_server_gethost (a_server (www ∷ [])) (some (codes "WWW"))
      ≡ some (lookup_host (some (codes "WWW")) (www ∷ [])))
    × (config_server_gethost (a_server ((www ∷ []) ++ files ∷ [])) (some (codes "WWW"))
        ≡ some (lookup_host (some (codes "WWW")) (www ∷ [])))
gethost-lookup_example =
    gethost-lookup (a_server []) (some (codes "WWW")) www files [] (www-HasName, tt)

abbrev two_sections : List (Bytes × Option (Bytes × Bytes))
two_sections =
    (codes "Host", none)
    ∷ (codes "Host", some (codes "default", codes "yes"))
    ∷ (codes "Host", none)
    ∷ (codes "Host", some (codes "default", codes "yes"))
    ∷ []

abbrev a_reading : Reading
a_reading = record {
  config = record {
    servername = codes "khttp";
    administrator = codes "localhost";
    listen_port = 80;
    hosts =
        record config_host_new { default_host = false }
        ∷ record config_host_new { default_host = true }
        ∷ [];
  };
  host = some 1;
}

two_sections_read :
    read_all
      (λ d. some d)
      (record { config = config_server_new (some (codes "khttp")); host = none })
      two_sections
    ≡ some a_reading
unfolding read_all str_case_eq config_server_new update clear_defaults
two_sections_read = refl

read_all-default_example : count_defaults a_reading.config.hosts ≤ 1
read_all-default_example =
    read_all-default (λ d. some d) (some (codes "khttp")) two_sections two_sections_read
