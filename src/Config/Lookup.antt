-- ===== src/Config/Lookup.antt =====
-- Which hosts the loops of src/config.c see.
use khttp.Common.{
  ℕ, ◌≤◌, ◌≡◌, refl, ap, ◌∙◌, ◌≢◌, Bool, false, Option, none, some, List, [], ◌∷◌, ◌++◌, arith,
  if◌then◌else◌, Option-cases, length, find?, All, Bytes, str_case_eq,
}
use khttp.Config.{
  HostConfig, ServerConfig, init, visited, gethost_loop, config_server_gethost,
  config_server_delete, free_each,
}

init-append {ℓ} : {A : Type ℓ} (x : A) (xs : List A) → init (xs ++ x ∷ []) ≡ xs
init-append x [] = refl
init-append x (y ∷ []) = refl
init-append x (y ∷ z ∷ xs) = ap (◌∷◌ y) (init-append x (z ∷ xs))

visited-append {ℓ} :
    {A : Type ℓ} (x y : A) (xs : List A) → visited ((x ∷ xs) ++ y ∷ []) ≡ x ∷ x ∷ xs
visited-append x y xs = ap (◌∷◌ x) (init-append y (x ∷ xs))

-- With two hosts or more, `config_server_gethost` never looks at the last one: any other host in its
-- place gives the same answer.
pub gethost_ignores_last :
    (config : ServerConfig) (first last other : HostConfig) (hosts : List HostConfig)
    (name : Option Bytes)
    → config_server_gethost (record config { hosts = (first ∷ hosts) ++ last ∷ [] }) name
      ≡ config_server_gethost (record config { hosts = (first ∷ hosts) ++ other ∷ [] }) name
unfolding config_server_gethost
gethost_ignores_last config first last other hosts name =
    rw (visited-append first last hosts, visited-append first other hosts) refl

-- What a lookup among hosts with names should give: the first of that name, ignoring case, or else
-- the last default host.
abbrev pub HasName : HostConfig → Type 0
HasName h = h.hostname ≢ none

abbrev pub is_called : Bytes → HostConfig → Bool
is_called name h = elim h.hostname [ none ↦ false | some own ↦ str_case_eq name own ]

abbrev pub last_default : Option HostConfig → List HostConfig → Option HostConfig
last_default found [] = found
last_default found (h ∷ hs) = last_default (if h.default_host then some h else found) hs

abbrev pub lookup_host : Option Bytes → List HostConfig → Option HostConfig
lookup_host none hosts = last_default none hosts
lookup_host (some name) hosts = elim (find? (is_called name) hosts) [
  | none ↦ last_default none hosts
  | some h ↦ some h
]

gethost_loop-none :
    (found : Option HostConfig) (hs : List HostConfig)
    → gethost_loop none found hs ≡ some (last_default found hs)
unfolding gethost_loop
gethost_loop-none found [] = refl
gethost_loop-none found (h ∷ hs) = gethost_loop-none (if h.default_host then some h else found) hs

gethost_loop-some :
    (name : Bytes) (found : Option HostConfig) (hs : List HostConfig)
    → All HasName hs
    → gethost_loop (some name) found hs
      ≡ some (elim (find? (is_called name) hs) [ none ↦ last_default found hs | some h ↦ some h ])
unfolding gethost_loop
gethost_loop-some name found [] named = refl
gethost_loop-some name found (h ∷ hs) (here, named) = ground (
  arith,
  gethost_loop-some name (if h.default_host then some h else found) hs named,
  Option-cases h.hostname,
)

lookup_host-repeat :
    (name : Option Bytes) (h : HostConfig) (hs : List HostConfig)
    → lookup_host name (h ∷ h ∷ hs) ≡ lookup_host name (h ∷ hs)
lookup_host-repeat none h hs = ground arith
lookup_host-repeat (some name) h hs = ground arith

gethost_loop-lookup :
    (name : Option Bytes) (hs : List HostConfig)
    → All HasName hs
    → gethost_loop name none hs ≡ some (lookup_host name hs)
gethost_loop-lookup none hs named = gethost_loop-none none hs
gethost_loop-lookup (some name) hs named = gethost_loop-some name none hs named

-- Where all hosts have a name, `config_server_gethost` finds the first host of the given name,
-- ignoring case, or else the last default host: of a single host that is looked at, and of
-- two or more hosts among all but the last.
pub gethost-lookup :
    (config : ServerConfig) (name : Option Bytes) (first last : HostConfig)
    (hosts : List HostConfig)
    → All HasName (first ∷ hosts)
    → (config_server_gethost (record config { hosts = first ∷ [] }) name
        ≡ some (lookup_host name (first ∷ [])))
      × (config_server_gethost (record config { hosts = (first ∷ hosts) ++ last ∷ [] }) name
          ≡ some (lookup_host name (first ∷ hosts)))
unfolding config_server_gethost
gethost-lookup config name first last hosts named = (
  gethost_loop-lookup name (first ∷ []) (named.0, tt),
  rw (visited-append first last hosts) (
      gethost_loop-lookup name (first ∷ first ∷ hosts) (named.0, named)
      ∙ ap some (lookup_host-repeat name first hosts)),
)

-- `config_server_delete` frees each of at most one host once, and with two hosts or more it frees
-- the first one twice.
pub delete_twice :
    (config : ServerConfig)
    → (length config.hosts ≤ 1
        → (freed : List ℕ) × (config_server_delete config ≡ some freed)
          × (length freed ≡ length config.hosts))
      × (2 ≤ length config.hosts → config_server_delete config ≡ none)
unfolding config_server_delete free_each
delete_twice config = at config.hosts refl
  where
    at :
        (hs : List HostConfig)
        → config.hosts ≡ hs
        → (length config.hosts ≤ 1
            → (freed : List ℕ) × (config_server_delete config ≡ some freed)
              × (length freed ≡ length config.hosts))
          × (2 ≤ length config.hosts → config_server_delete config ≡ none)
    at [] e = (
      λ h. ([], rw (e, config_server_delete) refl, rw e refl),
      λ h. absurd (omega (arith, ap length e)),
    )
    at (x ∷ []) e = (
      λ h. (0 ∷ [], rw (e, config_server_delete) refl, rw e refl),
      λ h. absurd (omega (arith, ap length e)),
    )
    at (x ∷ y ∷ hs) e =
        (λ h. absurd (omega (arith, ap length e)), λ h. rw (e, config_server_delete) refl)
