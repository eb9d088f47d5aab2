-- ===== src/Config.antt =====
-- The configuration of src/config.c and src/config.h. The pointer array `hosts` is a list; a pointer
-- to a host is its position. `none` as a result is a fault. The parser that calls
-- `config_read_ini_cb` is a library's.
pub mod Handler
pub mod Examples
pub mod Lookup
use khttp.Common.{
  ℕ, zero, suc, ◌+◌, ◌-◌, ◌*◌, ◌%◌, ◌^◌, Bool, true, false, ◌&&◌, ◌||◌, Option, none, some, List,
  [], ◌∷◌, ◌++◌, ltb, leb, ◌==◌, if◌then◌else◌, length, Bytes, codes, str_case_eq, is_space,
}
use khttp.Util.Trim.{str_trimwhitespace}

pub record HostConfig : Type 0 where
  pub hostname : Option Bytes
  pub default_host : Bool
  pub enabled : Bool
  pub serve_dir : Option Bytes
  pub index_files : List Bytes
  pub dir_listings : Bool

pub record ServerConfig : Type 0 where
  pub servername : Bytes
  pub administrator : Bytes
  pub listen_port : ℕ
  pub hosts : List HostConfig

-- `gethostname` is the system's answer, `none` if it fails.
unfoldable pub config_server_new : Option Bytes → ServerConfig
config_server_new gethostname = record {
  servername = elim gethostname [ none ↦ codes "localhost" | some name ↦ name ];
  administrator = codes "localhost";
  listen_port = 80;
  hosts = [];
}

unfoldable pub config_host_new : HostConfig
config_host_new = record {
  hostname = none;
  default_host = false;
  enabled = true;
  serve_dir = none;
  index_files = codes "index.html" ∷ [];
  dir_listings = true;
}

unfoldable pub config_server_addhost : ServerConfig → HostConfig → ServerConfig
config_server_addhost config host = record config { hosts = config.hosts ++ host ∷ [] }

-- All but the last.
abbrev pub init {ℓ} : {A : Type ℓ} → List A → List A
init [] = []
init (x ∷ []) = []
init (x ∷ y ∷ xs) = x ∷ init (y ∷ xs)

-- The values that CONFIG_SERVER_FOREACH_HOST gives its variable: hosts[0] before the first round, and
-- `hosts[i++]` after each.
abbrev pub visited {ℓ} : {A : Type ℓ} → List A → List A
visited [] = []
visited (x ∷ xs) = x ∷ init (x ∷ xs)

-- strcasecmp of a name that may not be there; the host's must be.
name_matches : Option Bytes → HostConfig → Option Bool
name_matches none host = some false
name_matches (some name) host = elim host.hostname [
  | none ↦ none
  | some own ↦ some (str_case_eq name own)
]

pub gethost_loop : Option Bytes → Option HostConfig → List HostConfig → Option (Option HostConfig)
unfolding name_matches
gethost_loop name found [] = some found
gethost_loop name found (h ∷ hs) =
    let rest = gethost_loop name (if h.default_host then some h else found) hs in
    elim (name_matches name h) [ none ↦ none | some true ↦ some (some h) | some false ↦ rest ]

unfoldable pub config_server_gethost : ServerConfig → Option Bytes → Option (Option HostConfig)
unfolding gethost_loop
config_server_gethost config name = gethost_loop name none (visited config.hosts)

-- free() of each visited pointer; a second free of one is a fault.
abbrev has : ℕ → List ℕ → Bool
has p [] = false
has p (q ∷ qs) = (p == q) || has p qs

pub free_each : List ℕ → List ℕ → Option (List ℕ)
free_each [] gone = some gone
free_each (p ∷ ps) gone = if has p gone then none else free_each ps (p ∷ gone)

abbrev range : ℕ → ℕ → List ℕ
range i zero = []
range i (suc n) = i ∷ range (i + 1) n

-- The positions of the hosts that it frees.
unfoldable pub config_server_delete : ServerConfig → Option (List ℕ)
unfolding free_each
config_server_delete config = free_each (visited (range 0 (length config.hosts))) []

-- What the handler returns: 1 or -1.
pub data HandlerResult : Type 0 where
  one minus_one : HandlerResult

-- The configuration and the static variable `host`.
pub record Reading : Type 0 where
  pub config : ServerConfig
  pub host : Option ℕ

pub update : ℕ → (HostConfig → HostConfig) → List HostConfig → List HostConfig
update i f [] = []
update zero f (h ∷ hs) = f h ∷ hs
update (suc i) f (h ∷ hs) = h ∷ update i f hs

-- `tmp->default_host = false` for each visited host.
pub clear_init : List HostConfig → List HostConfig
clear_init [] = []
clear_init (h ∷ []) = h ∷ []
clear_init (h ∷ k ∷ hs) = record h { default_host = false } ∷ clear_init (k ∷ hs)

pub clear_defaults : List HostConfig → List HostConfig
unfolding clear_init
clear_defaults [] = []
clear_defaults (h ∷ hs) = clear_init (record h { default_host = false } ∷ hs)

abbrev yes_or_no : Bytes → Bool → Bool
yes_or_no value old =
    if str_case_eq value (codes "yes")
    then true
    else if str_case_eq value (codes "no")
    then false
    else old

abbrev is_comma : ℕ → Bool
is_comma c = c == b','

-- strtol(value, NULL, 10) cast to uint16_t.
digits_value : Bytes → ℕ → ℕ
digits_value [] n = n
digits_value (c ∷ s) n =
    if leb b'0' c && leb c b'9' then digits_value s (n * 10 + (c - b'0')) else n

abbrev u16_mod : ℕ
u16_mod = 2 ^ 16

-- Out of range, strtol gives LONG_MAX or LONG_MIN.
to_port : Bool → ℕ → ℕ
to_port false n = if ltb n (2 ^ 63) then n % u16_mod else u16_mod - 1
to_port true n = if ltb n (2 ^ 63) then (u16_mod - n % u16_mod) % u16_mod else 0

signed_port : Bytes → ℕ
unfolding to_port digits_value
signed_port [] = 0
signed_port (c ∷ s) =
    if c == b'-'
    then to_port true (digits_value s 0)
    else if c == b'+'
    then to_port false (digits_value s 0)
    else to_port false (digits_value (c ∷ s) 0)

skip_blank : Bytes → Bytes
skip_blank [] = []
skip_blank (c ∷ s) = if is_space c then skip_blank s else c ∷ s

pub parse_port : Bytes → ℕ
unfolding signed_port skip_blank
parse_port value = signed_port (skip_blank value)
