-- ===== src/Server/Process/Wanted.antt =====
-- What `server_process_request` of src/http-server.c reads from the headers and the method, described
-- without its code.
use mathlib.Core.Path.{subst}
use khttp.Common.{
  ◌≢◌, arith, ◌≡◌, refl, inl, inr, false, Option, none, some, List, Option-cases, Bytes,
}
use khttp.Http.Header.{Header, http_header_list_get}
use khttp.Http.Header.First.{First, Lacks, get-First, get-Lacks}
use khttp.Http.Response.{Version, http10, http11, httpxx, header_host}
use khttp.Http.Method.{Method, get, head, post}
use khttp.Server.Process.{missing, asked, wanted_host, valid_method}

-- The name under which a request asks for a host: what its first Host header says, spelled so, if it
-- is of HTTP/1.1, and none otherwise.
pub data Asks (version : Version) (headers : List Header) : Option Bytes → Type 0 where
  by_header :
      (h : Header) (name : Bytes)
      → version ≡ http11
      → First header_host headers h
      → h.content ≡ some name
      → Asks version headers (some name)
  by_default : version ≢ http11 → Asks version headers none

pub wanted_host-Asks :
    (version : Version) (headers : List Header) (name : Option Bytes)
    → wanted_host version headers ≡ some (asked name)
    → Asks version headers name
unfolding wanted_host
wanted_host-Asks http11 headers name e =
    elim (Option-cases (http_header_list_get headers (some header_host))) [
      | inl e0 ↦ absurd (ground (arith, e, e0))
      | inr (h, e1) ↦ elim (Option-cases h.content) [
        | inl e0 ↦ absurd (ground (arith, e, e1, e0))
        | inr (c, e2) ↦
            (let same : some c ≡ name = ground (arith, e, e1, e2) in
              subst (Asks http11 headers) same (by_header h c refl (get-First _ _ headers e1) e2))
      ]
    ]
wanted_host-Asks http10 headers name e =
    let same : none ≡ name = ground (arith, e) in
    subst (Asks http10 headers) same (by_default (λ h. ground (arith, h)))
wanted_host-Asks httpxx headers name e =
    let same : none ≡ name = ground (arith, e) in
    subst (Asks httpxx headers) same (by_default (λ h. ground (arith, h)))

pub wanted_host-missing :
    (version : Version) (headers : List Header)
    → wanted_host version headers ≡ some missing
    → (version ≡ http11) × Lacks header_host headers
unfolding wanted_host
wanted_host-missing http11 headers e =
    elim (Option-cases (http_header_list_get headers (some header_host))) [
      | inl e0 ↦ (refl, get-Lacks _ _ headers e0)
      | inr (h, e1) ↦ elim (Option-cases h.content) [
        | inl e0 ↦ absurd (ground (arith, e, e1, e0))
        | inr (c, e2) ↦ absurd (ground (arith, e, e1, e2))
      ]
    ]
wanted_host-missing http10 headers e = absurd (ground (arith, e))
wanted_host-missing httpxx headers e = absurd (ground (arith, e))

pub not_valid :
    (method : Method)
    → valid_method method ≡ false
    → (method ≢ get) × (method ≢ head) × (method ≢ post)
unfolding valid_method
not_valid method h =
    (λ e. ground (arith, h, e), λ e. ground (arith, h, e), λ e. ground (arith, h, e))
