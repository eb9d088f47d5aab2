-- ===== src/Server/Process/Closing.antt =====
-- When `server_process_request` of src/http-server.c leaves the connection open.
use mathlib.Core.Path.{subst}
use khttp.Common.{
  bind_inv, some_inj, ℕ, ◌≡◌, refl, sym, ap, ◌∙◌, ◌≢◌, inl, inr, Bool, true, false, Option, none,
  some, List, [], ◌∷◌, ◌++◌, arith, Bool-cases, Option-cases, Bytes, codes, str_case_eq,
}
use khttp.Config.{ServerConfig}
use khttp.Http.Header.{
  Header, http_header_list_get, http_header_list_add, http_header_new, http_header_list_new,
}
use khttp.Http.Header.First.{First, Lacks, get-First, get-Lacks, Lacks-last}
use khttp.Http.Response.{
  http10, http11, httpxx, Version, Response, header_connection, header_content_type,
  http_response_new, http_response_line_new,
}
use khttp.Http.Builtin.{http_response_create_builtin}
use khttp.Http.Request.{Request, RequestLine}
use khttp.Mime.{MimeType}
use khttp.Server.Files.{System}
use khttp.Server.Process.{
  refuse, respond, close_connection, is_http10, content_is, server_process_request, file_body,
  add_close, content_type,
}
use khttp.Server.Process.Outcomes.{
  Outcome, faults, refuses, lists, serves, server_process_request-Outcome,
}

-- The request lets the connection stay open. Its first header spelled Connection, byte for byte, does
-- not say "close", in any case, and says "Keep-Alive" if the request is of HTTP/1.0; without such a
-- header it is not of HTTP/1.0.
pub data Persistent (version : Version) (headers : List Header) : Type 0 where
  silent : Lacks header_connection headers → version ≢ http10 → Persistent version headers
  unopposed :
      (h : Header) (c : Bytes)
      → First header_connection headers h
      → h.content ≡ some c
      → str_case_eq c (codes "close") ≡ false
      → version ≢ http10
      → Persistent version headers
  requested :
      (h : Header) (c : Bytes)
      → First header_connection headers h
      → h.content ≡ some c
      → str_case_eq c (codes "close") ≡ false
      → str_case_eq c (codes "Keep-Alive") ≡ true
      → Persistent version headers

abbrev close_header : Header
close_header = http_header_new header_connection (some (codes "close"))

-- A header list that ends in `Connection: close` does not lack a Connection header.
close-Lacks : (hs : List Header) → ¬ Lacks header_connection (hs ++ close_header ∷ [])
unfolding http_header_new
close-Lacks hs = Lacks-last header_connection hs close_header refl

refuse_closes :
    (sys : System) (code : ℕ) (message : Bytes) (resp : Response)
    → refuse sys code message ≡ some resp
    → ¬ Lacks header_connection resp.headers
unfolding refuse http_header_list_add
refuse_closes sys code message resp e lacks =
    let (built, e1, e2) =
      bind_inv (http_response_create_builtin sys.error_page code (some message)) _ e in
    close-Lacks built.headers
      (subst (λ (r : Response). Lacks header_connection r.headers) (sym (some_inj e2)) lacks)

not_http10 : (version : Version) → is_http10 version ≡ false → version ≢ http10
not_http10 http10 h e = ground (arith, h)
not_http10 http11 h e = ground (arith, e)
not_http10 httpxx h e = ground (arith, e)

persist :
    (version : Version) (headers : List Header)
    → close_connection version headers ≡ some false
    → Persistent version headers
unfolding close_connection content_is
persist version headers e =
    let get = http_header_list_get headers (some header_connection) in
    elim (Option-cases get) [
      | inl e0 ↦ silent (get-Lacks _ _ headers e0) (not_http10 version (ground (arith, e, e0)))
      | inr (h, e1) ↦ elim (Option-cases h.content) [
        | inl e2 ↦ absurd (ground (arith, e, e1, e2))
        | inr (c, e2) ↦ elim (Bool-cases (str_case_eq c (codes "Keep-Alive"))) [
          | inl e3 ↦ requested h c (get-First _ _ headers e1) e2 (ground (arith, e, e1, e2, e3)) e3
          | inr e3 ↦
              unopposed h c (get-First _ _ headers e1) e2 (ground (arith, e, e1, e2, e3))
                (not_http10 version (ground (arith, e, e1, e2, e3)))
        ]
      ]
    ]

abbrev content_header : System → List MimeType → Option Bytes → Header
content_header sys types path =
    http_header_new header_content_type (some (content_type sys types path))

stays :
    (close : Bool) (hs : List Header) (type : Header)
    → add_close close (type ∷ []) ≡ some hs
    → Lacks header_connection hs
    → close ≡ false
unfolding add_close http_header_list_add
stays false hs type e h = refl
stays true hs type e h = absurd (
    close-Lacks (type ∷ [])
      (subst (λ (l : List Header). Lacks header_connection l) (sym (some_inj e)) h))

respond_opens :
    (sys : System) (types : List MimeType) (line : RequestLine) (headers : List Header)
    (path : Option Bytes) (file : Bytes) (resp : Response)
    → respond sys types line headers path file ≡ some resp
    → Lacks header_connection resp.headers
    → (resp.line.code ≡ 200) × Persistent line.version headers
unfolding respond http_header_list_add http_response_new http_header_list_new http_response_line_new
respond_opens sys types line headers path file resp e h =
    let (body, e1, f1) =
      bind_inv (file_body line.method file (http_response_new (http_response_line_new 200)).body) _
        e in
    let (close, e2, f2) = bind_inv _ _ f1 in
    let (hs, e3, f3) = bind_inv _ _ f2 in
    (
      ap (λ r. r.line.code) (sym (some_inj f3)),
      persist line.version headers (
          e2
          ∙ ap some (
              stays close hs (content_header sys types path) e3 (
                subst (λ (r : Response). Lacks header_connection r.headers) (sym (some_inj f3))
                  h))),
    )

-- A reply that leaves the connection open, having no header spelled Connection, has code 200, and the
-- first header of the request that is spelled Connection, byte for byte, if it has one, does not say
-- "close" in any case. If the request is of HTTP/1.0 it has one, which says "Keep-Alive" in any case.
pub process_request-Persistent :
    (sys : System) (types : List MimeType) (config : ServerConfig) (request : Request)
    (line : RequestLine) (resp : Response)
    → request.req ≡ some line
    → server_process_request sys types config request ≡ some resp
    → Lacks header_connection resp.headers
    → (resp.line.code ≡ 200) × Persistent line.version request.headers
process_request-Persistent sys types config request line resp here e h =
    outcome _ (server_process_request-Outcome sys types config request line here) e
  where
    outcome :
        (r : Option Response)
        → Outcome sys types config line request.headers r
        → r ≡ some resp
        → (resp.line.code ≡ 200) × Persistent line.version request.headers
    outcome _ faults e = absurd (ground (arith, e))
    outcome _ (refuses code m bad) e = absurd (refuse_closes sys code m resp e h)
    outcome _ (lists at path {page} _ _ found) e =
        respond_opens sys types line request.headers none page resp e h
    outcome _ (serves at path {file} _ _ found) e =
        respond_opens sys types line request.headers (some path) file resp e h
