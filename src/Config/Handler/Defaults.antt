-- ===== src/Config/Handler/Defaults.antt =====
-- Reading a configuration leaves at most one default host (src/config.c).
use mathlib.Core.Path.{subst}
use khttp.Common.{
  ℕ, zero, suc, ◌+◌, ◌≤◌, ◌≡◌, refl, inl, inr, Bool, true, false, ◌&&◌, Option, none, some, List,
  [], ◌∷◌, ◌++◌, arith, if◌then◌else◌, Bool-cases, Option-cases, length, length-append, Bytes,
  codes, str_case_eq,
}
use Prim.Native.String.{String}
use khttp.Config.{
  HostConfig, ServerConfig, Reading, HandlerResult, one, minus_one, config_server_new, update,
  clear_init, clear_defaults, config_host_new,
}
use khttp.Config.Handler.{
  matches, is_none, set_host, make_default, set_default, set_serve, host_entry, entry, new_host,
  config_read_ini_cb, read_all,
}

abbrev pub count_defaults : List HostConfig → ℕ
count_defaults [] = 0
count_defaults (h ∷ hs) = (if h.default_host then 1 else 0) + count_defaults hs

-- The static pointer is NULL or points at the last host.
abbrev IsLast : Option ℕ → List HostConfig → Type 0
IsLast none hs = Unit
IsLast (some i) hs = suc i ≡ length hs

record IsSound (r : Reading) : Type 0 where
  single : count_defaults r.config.hosts ≤ 1
  latest : IsLast r.host r.config.hosts

data Keeps : Option (Reading × HandlerResult) → Type 0 where
  fault : Keeps none
  kept : {r : Reading} {result : HandlerResult} → IsSound r → Keeps (some (r, result))

length-update :
    (i : ℕ) (f : HostConfig → HostConfig) (hs : List HostConfig)
    → length (update i f hs) ≡ length hs
unfolding update
length-update i f [] = refl
length-update zero f (h ∷ hs) = refl
length-update (suc i) f (h ∷ hs) = omega (arith, length-update i f hs)

count_defaults-update :
    (i : ℕ) (f : HostConfig → HostConfig) (hs : List HostConfig)
    → ((h : HostConfig) → (f h).default_host ≡ true → h.default_host ≡ true)
    → count_defaults (update i f hs) ≤ count_defaults hs
unfolding update
count_defaults-update i f [] keep = omega arith
count_defaults-update zero f (h ∷ hs) keep = ground (arith, keep h)
count_defaults-update (suc i) f (h ∷ hs) keep = omega (arith, count_defaults-update i f hs keep)

length-clear_init : (hs : List HostConfig) → length (clear_init hs) ≡ length hs
unfolding clear_init
length-clear_init [] = refl
length-clear_init (h ∷ []) = refl
length-clear_init (h ∷ k ∷ hs) = omega (arith, length-clear_init (k ∷ hs))

length-clear_defaults : (hs : List HostConfig) → length (clear_defaults hs) ≡ length hs
unfolding clear_defaults
length-clear_defaults [] = refl
length-clear_defaults (h ∷ hs) = length-clear_init (record h { default_host = false } ∷ hs)

abbrev as_default : HostConfig → HostConfig
as_default h = record h { default_host = true }

one_default :
    (i : ℕ) (hs : List HostConfig)
    → suc i ≡ length hs
    → count_defaults (update i as_default (clear_init hs)) ≡ 1
unfolding update clear_init
one_default i [] e = absurd (omega arith)
one_default zero (h ∷ []) e = omega arith
one_default (suc i) (h ∷ []) e = absurd (omega arith)
one_default zero (h ∷ k ∷ hs) e = absurd (omega arith)
one_default (suc i) (h ∷ k ∷ hs) e = omega (arith, one_default i (k ∷ hs) (omega arith))

one_default_after_clear :
    (i : ℕ) (hs : List HostConfig)
    → suc i ≡ length hs
    → count_defaults (update i as_default (clear_defaults hs)) ≡ 1
unfolding clear_defaults
one_default_after_clear i [] e = absurd (omega arith)
one_default_after_clear i (h ∷ hs) e =
    one_default i (record h { default_host = false } ∷ hs) (omega arith)

set_host-Keeps :
    (r : Reading) (f : HostConfig → HostConfig)
    → ((h : HostConfig) → (f h).default_host ≡ true → h.default_host ≡ true)
    → IsSound r
    → Keeps (set_host r f)
unfolding set_host
set_host-Keeps r f keep s = at r.host refl
  where
    at : (o : Option ℕ) → r.host ≡ o → Keeps (set_host r f)
    at none e = rw (e, set_host) fault
    at (some i) e =
        let last : suc i ≡ length r.config.hosts =
          subst (λ o. IsLast o r.config.hosts) e s.latest in
        rw (e, set_host)
          (kept (record {
            single = omega (arith, s.single, count_defaults-update i f r.config.hosts keep);
            latest = rw e (omega (arith, last, length-update i f r.config.hosts));
          }))

make_default-Keeps : (r : Reading) → IsSound r → Keeps (make_default r)
unfolding make_default set_host
make_default-Keeps r s = at r.host refl
  where
    at : (o : Option ℕ) → r.host ≡ o → Keeps (make_default r)
    at none e = rw (e, make_default) fault
    at (some i) e =
        let last : suc i ≡ length r.config.hosts =
          subst (λ o. IsLast o r.config.hosts) e s.latest in
        rw (e, make_default)
          (kept (record {
            single = omega (arith, one_default_after_clear i r.config.hosts last);
            latest = rw e (
                omega (
                  arith,
                  last,
                  length-update i as_default (clear_defaults r.config.hosts),
                  length-clear_defaults r.config.hosts,
                ));
          }))

set_default-Keeps : (r : Reading) (value : Bytes) → IsSound r → Keeps (set_default r value)
unfolding set_default
set_default-Keeps r value s = elim (Bool-cases (str_case_eq value (codes "yes"))) [
  | inl e ↦ rw e (make_default-Keeps r s)
  | inr e ↦ elim (Bool-cases (str_case_eq value (codes "no"))) [
    | inl e' ↦ rw (e, e') (set_host-Keeps r (λ h. record h { default_host = false }) (λ h f. cc) s)
    | inr e' ↦ rw (e, e') (kept s)
  ]
]

set_serve-Keeps :
    (directory : Bytes → Option Bytes) (r : Reading) (value : Bytes)
    → IsSound r
    → Keeps (set_serve directory r value)
unfolding set_serve
set_serve-Keeps directory r value s = elim (Option-cases (directory value)) [
  | inl e ↦ rw (e, set_serve) (kept s)
  | inr (path, e) ↦ rw (e, set_serve) (set_host-Keeps r _ (λ h f. f) s)
]

host_entry-Keeps :
    (directory : Bytes → Option Bytes) (r : Reading) (section name value : Bytes)
    → IsSound r
    → Keeps (host_entry directory r section name value)
unfolding host_entry
host_entry-Keeps directory r section name value s = elim (Bool-cases (is "name")) [
  | inl e ↦ rw e (set_host-Keeps r _ (λ h f. f) s)
  | inr e1 ↦ elim (Bool-cases (is "enabled")) [
    | inl e ↦ rw (e1, e) (set_host-Keeps r _ (λ h f. f) s)
    | inr e2 ↦ elim (Bool-cases (is "default")) [
      | inl e ↦ rw (e1, e2, e) (set_default-Keeps r value s)
      | inr e3 ↦ elim (Bool-cases (is "serve")) [
        | inl e ↦ rw (e1, e2, e3, e) (set_serve-Keeps directory r value s)
        | inr e4 ↦ elim (Bool-cases (is "index_files")) [
          | inl e ↦ rw (e1, e2, e3, e4, e) (set_host-Keeps r _ (λ h f. f) s)
          | inr e5 ↦ elim (Bool-cases (is "dir_listings")) [
            | inl e ↦ rw (e1, e2, e3, e4, e5, e) (set_host-Keeps r _ (λ h f. f) s)
            | inr e ↦ rw (e1, e2, e3, e4, e5, e) (kept s)
          ]
        ]
      ]
    ]
  ]
]
  where
    is : String → Bool
    is entry_name = matches (codes "Host") (codes entry_name) section name

same_hosts :
    (r : Reading) (config : ServerConfig)
    → config.hosts ≡ r.config.hosts
    → IsSound r
    → IsSound (record { config = config; host = r.host })
same_hosts r config e s = record { single = rw e s.single; latest = rw e s.latest }

entry-Keeps :
    (directory : Bytes → Option Bytes) (r : Reading) (section name value : Bytes)
    → IsSound r
    → Keeps (entry directory r section name value)
unfolding entry
entry-Keeps directory r section name value s = elim (Bool-cases (is "name")) [
  | inl e ↦ rw e (kept (same_hosts r _ refl s))
  | inr e1 ↦ elim (Bool-cases (is "admin")) [
    | inl e ↦ rw (e1, e) (kept (same_hosts r _ refl s))
    | inr e2 ↦ elim (Bool-cases (is "listen")) [
      | inl e ↦ rw (e1, e2, e) (kept (same_hosts r _ refl s))
      | inr e ↦ rw (e1, e2, e) (host_entry-Keeps directory r section name value s)
    ]
  ]
]
  where
    is : String → Bool
    is entry_name = matches (codes "Server") (codes entry_name) section name

count_defaults-append :
    (hs : List HostConfig) (h : HostConfig)
    → h.default_host ≡ false
    → count_defaults (hs ++ h ∷ []) ≡ count_defaults hs
count_defaults-append [] h e = ground arith
count_defaults-append (k ∷ hs) h e = omega (arith, count_defaults-append hs h e)

new_host-IsSound : (r : Reading) → IsSound r → IsSound (new_host r)
unfolding new_host
new_host-IsSound r s = record {
  single = omega (
    arith,
    s.single,
    count_defaults-append r.config.hosts config_host_new (unfold config_host_new in refl),
  );
  latest = omega (arith, length-append r.config.hosts (config_host_new ∷ []));
}

cb-Keeps :
    (directory : Bytes → Option Bytes) (r : Reading) (section : Bytes)
    (pair : Option (Bytes × Bytes))
    → IsSound r
    → Keeps (config_read_ini_cb directory r section pair)
unfolding config_read_ini_cb
cb-Keeps directory r section none s = elim (Bool-cases (str_case_eq section (codes "Host"))) [
  | inl e ↦ rw e (kept (new_host-IsSound r s))
  | inr e ↦ rw e (rest (str_case_eq (codes "Host") section && is_none r.host))
]
  where
    rest : (b : Bool) → Keeps (if b then some (r, minus_one) else some (r, one))
    rest true = kept s
    rest false = kept s
cb-Keeps directory r section (some (name, value)) s =
    elim (Bool-cases (str_case_eq (codes "Host") section && is_none r.host)) [
      | inl e ↦ rw e (kept s)
      | inr e ↦ rw e (entry-Keeps directory r section name value s)
    ]

after-IsSound :
    (o : Option (Reading × HandlerResult)) (r' : Reading)
    → Keeps o
    → ((r : Reading) (result : HandlerResult) → o ≡ some (r, result) → IsSound r → IsSound r')
    → (o ≡ none → ⊥)
    → IsSound r'
after-IsSound none r' k next some_left = absurd (some_left refl)
after-IsSound (some (r, result)) r' (kept s) next some_left = next r result refl s

read_all-IsSound :
    (directory : Bytes → Option Bytes) (calls : List (Bytes × Option (Bytes × Bytes))) (r : Reading)
    {r' : Reading}
    → IsSound r
    → read_all directory r calls ≡ some r'
    → IsSound r'
unfolding read_all
read_all-IsSound directory [] r s e = subst IsSound (cc) s
read_all-IsSound directory ((section, pair) ∷ calls) r {r'} s e =
    after-IsSound (config_read_ini_cb directory r section pair) r'
      (cb-Keeps directory r section pair s)
      (λ r2 result found sound. read_all-IsSound directory calls r2 sound (ground (arith, found)))
      (λ gone. ground (arith, gone))

-- Whatever the parser reads, if `config_read_ini_cb` meets no fault then at most one host is the
-- default one, starting from a new configuration.
pub read_all-default :
    (directory : Bytes → Option Bytes) (gethostname : Option Bytes)
    (calls : List (Bytes × Option (Bytes × Bytes))) {r : Reading}
    → read_all directory (record { config = config_server_new gethostname; host = none }) calls
      ≡ some r
    → count_defaults r.config.hosts ≤ 1
unfolding config_server_new
read_all-default directory gethostname calls e =
    (read_all-IsSound directory calls _ (record { single = omega arith; latest = tt }) e).single
