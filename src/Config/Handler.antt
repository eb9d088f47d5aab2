-- ===== src/Config/Handler.antt =====
-- `config_read_ini_cb` of src/config.c, the handler of each line that the ini parser has read.
pub mod Defaults
use khttp.Common.{
  ℕ, Bool, true, false, ◌&&◌, Option, none, some, List, [], ◌∷◌, map, if◌then◌else◌, length, Bytes,
  codes, str_case_eq, tokens,
}
use khttp.Util.Trim.{str_trimwhitespace}
use khttp.Config.{
  HostConfig, ServerConfig, Reading, HandlerResult, one, minus_one, config_host_new,
  config_server_addhost, update, clear_defaults, yes_or_no, is_comma, parse_port,
}

-- MATCH of a section and a name, both ignoring case.
unfoldable pub matches : Bytes → Bytes → Bytes → Bytes → Bool
matches s n section name = str_case_eq s section && str_case_eq n name

abbrev done : ServerConfig → Option ℕ → Option (Reading × HandlerResult)
done config host = some (record { config = config; host = host }, one)

-- A write through the static pointer `host`.
pub set_host : Reading → (HostConfig → HostConfig) → Option (Reading × HandlerResult)
set_host r f = elim r.host [
  | none ↦ none
  | some i ↦
      let config = r.config in done (record config { hosts = update i f config.hosts }) r.host
]

-- [Host]default=yes: no visited host stays the default one, and then `host` is.
pub make_default : Reading → Option (Reading × HandlerResult)
unfolding set_host
make_default r =
    let config = r.config in
    set_host (record r { config = record config { hosts = clear_defaults config.hosts } })
      (λ h. record h { default_host = true })

-- [Host]default
pub set_default : Reading → Bytes → Option (Reading × HandlerResult)
unfolding make_default
set_default r value =
    if str_case_eq value (codes "yes")
    then make_default r
    else if str_case_eq value (codes "no")
    then set_host r (λ h. record h { default_host = false })
    else some (r, one)

-- [Host]serve: `directory` is the real path of a value that can be opened as a directory.
pub set_serve : (Bytes → Option Bytes) → Reading → Bytes → Option (Reading × HandlerResult)
unfolding set_host
set_serve directory r value = elim (directory value) [
  | none ↦ some (r, minus_one)
  | some path ↦ set_host r (λ h. record h { serve_dir = some path })
]

-- The [Host] entries, in the order of the tests.
pub host_entry :
    (Bytes → Option Bytes) → Reading → Bytes → Bytes → Bytes → Option (Reading × HandlerResult)
unfolding matches set_default set_serve tokens str_trimwhitespace
host_entry directory r section name value =
    if matches (codes "Host") (codes "name") section name
    then set_host r (λ h. record h { hostname = some value })
    else if matches (codes "Host") (codes "enabled") section name
    then set_host r (λ h. record h { enabled = yes_or_no value h.enabled })
    else if matches (codes "Host") (codes "default") section name
    then set_default r value
    else if matches (codes "Host") (codes "serve") section name
    then set_serve directory r value
    else if matches (codes "Host") (codes "index_files") section name
    then set_host r
        (λ h. record h { index_files = map str_trimwhitespace (tokens is_comma value []) })
    else if matches (codes "Host") (codes "dir_listings") section name
    then set_host r (λ h. record h { dir_listings = yes_or_no value h.dir_listings })
    else some (r, one)

pub entry :
    (Bytes → Option Bytes) → Reading → Bytes → Bytes → Bytes → Option (Reading × HandlerResult)
unfolding matches host_entry parse_port
entry directory r section name value =
    let config = r.config in
    if matches (codes "Server") (codes "name") section name
    then done (record config { servername = value }) r.host
    else if matches (codes "Server") (codes "admin") section name
    then done (record config { administrator = value }) r.host
    else if matches (codes "Server") (codes "listen") section name
    then some (record r { config = record config { listen_port = parse_port value } }, minus_one)
    else host_entry directory r section name value

-- A new section comes with no name and no value.
pub new_host : Reading → Reading
unfolding config_server_addhost config_host_new
new_host r = record {
  config = config_server_addhost r.config config_host_new;
  host = some (length r.config.hosts);
}

abbrev pub is_none {ℓ} : {A : Type ℓ} → Option A → Bool
is_none none = true
is_none (some a) = false

unfoldable pub config_read_ini_cb :
    (Bytes → Option Bytes)
    → Reading
    → Bytes
    → Option (Bytes × Bytes)
    → Option (Reading × HandlerResult)
unfolding entry new_host
config_read_ini_cb directory r section pair =
    let in_host = str_case_eq section (codes "Host") in
    if is_none pair && in_host
    then some (new_host r, one)
    else if str_case_eq (codes "Host") section && is_none r.host
    then some (r, minus_one)
    else (elim pair [
      | none ↦ some (r, one)
      | some (name, value) ↦ entry directory r section name value
    ])

-- The parser's calls in turn, which go on whatever the handler returns.
unfoldable pub read_all :
    (Bytes → Option Bytes) → Reading → List (Bytes × Option (Bytes × Bytes)) → Option Reading
unfolding config_read_ini_cb
read_all directory r [] = some r
read_all directory r ((section, pair) ∷ calls) =
    elim (config_read_ini_cb directory r section pair) [
      | none ↦ none
      | some (r', _) ↦ read_all directory r' calls
    ]
