-- ===== src/Server/Process/Heads.antt =====
-- How `server_process_request` of src/http-server.c answers HEAD next to GET.
use khttp.Common.{
  ◌>>=◌, ℕ, ◌≡◌, refl, inl, inr, Bool, true, false, ◌≤◌, arith, [], ◌∷◌, Option, none, some, List,
  ◌++◌, Option-cases, take, drop, Bytes,
}
use khttp.Config.{HostConfig, ServerConfig, config_server_gethost}
use khttp.Http.Method.{get, head}
use khttp.Http.Header.{Header, http_header_list_add}
use khttp.Http.Body.{
  body_none, null, http_body_new, http_body_set_type, http_body_clear, http_body_append_str,
}
use khttp.Http.Response.{Response, http_response_new, http_response_line_new}
use khttp.Http.Request.{Request, RequestLine}
use khttp.Http.Builtin.{http_response_create_builtin, create_builtin_lem}
use khttp.Server.Refusals.{IsRefusal, determine_file-IsRefusal}
use khttp.Mime.{MimeType}
use khttp.Server.Files.{System, server_determine_file}
use khttp.Server.Listing.{server_generate_directory_index}
use khttp.Server.Process.{
  missing, asked, wanted_host, valid_method, refuse, respond, open_result, with_url, process_line,
  process_host, server_process_request, file_body, close_connection, add_close,
}

-- The replies to a GET and to a HEAD: both a fault, both the same page for an error, or, for code 200,
-- the latter without the body.
pub data Headed : Option Response → Option Response → Type 0 where
  both_fault : Headed none none
  same_refusal : (resp : Response) → 400 ≤ resp.line.code → Headed (some resp) (some resp)
  bodyless :
      (resp : Response)
      → resp.line.code ≡ 200
      → Headed (some resp) (some (record resp { body = http_body_new body_none null }))

bind_Headed {ℓ} :
    {A : Type ℓ} (o : Option A) (f g : A → Option Response)
    → ((a : A) → o ≡ some a → Headed (f a) (g a))
    → Headed (o >>= f) (o >>= g)
bind_Headed none f g h = both_fault
bind_Headed (some a) f g h = h a refl

builtin-code :
    (page : Option Bytes) (code : ℕ) (message : Option Bytes) (resp : Response)
    → http_response_create_builtin page code message ≡ some resp
    → resp.line.code ≡ code
unfolding http_response_create_builtin http_body_append_str http_response_line_new
builtin-code none code message resp e = ground (arith, e)
builtin-code (some []) code message resp e = ground (arith, e)
builtin-code (some (c ∷ text)) code message resp e =
    ground (arith, e, create_builtin_lem (some (c ∷ text)) code message)

refuse-Headed :
    (sys : System) (code : ℕ) (message : Bytes)
    → 400 ≤ code
    → Headed (refuse sys code message) (refuse sys code message)
unfolding refuse http_header_list_add
refuse-Headed sys code message h =
    bind_Headed (http_response_create_builtin sys.error_page code (some message)) _ _
      (λ resp e. same_refusal _ (rw (builtin-code sys.error_page code (some message) resp e) h))

abbrev by_get : RequestLine → RequestLine
by_get line = record line { method = get }

abbrev by_head : RequestLine → RequestLine
by_head line = record line { method = head }

respond-Headed :
    (sys : System) (types : List MimeType) (line : RequestLine) (headers : List Header)
    (path : Option Bytes) (file : Bytes)
    → Headed
        (respond sys types (by_get line) headers path file)
        (respond sys types (by_head line) headers path file)
unfolding respond file_body http_body_set_type http_body_new http_body_clear http_response_new
    http_response_line_new http_header_list_add
respond-Headed sys types line headers path file =
    bind_Headed (close_connection line.version headers) _ _
      (λ close _. bind_Headed (add_close close _) _ _ (λ hs _. bodyless _ refl))

open_result-Headed :
    (sys : System) (types : List MimeType) (host : HostConfig) (line : RequestLine)
    (headers : List Header) (error : Option (ℕ × Bytes)) (dir : Bool) (path : Option Bytes)
    → IsRefusal error
    → Headed
        (open_result sys types host
          (by_get line)
          headers
          (record { error = error; dir = dir; path = path }))
        (open_result sys types host
          (by_head line)
          headers
          (record { error = error; dir = dir; path = path }))
unfolding open_result
open_result-Headed sys types host line headers (some (code, m)) dir path bad =
    refuse-Headed sys code m bad
open_result-Headed sys types host line headers none dir none ok = both_fault
open_result-Headed sys types host line headers none true (some p) ok =
    elim (Option-cases (server_generate_directory_index sys host p)) [
      | inl e ↦ rw e both_fault
      | inr (none, e) ↦ rw e (refuse-Headed sys _ _ (omega arith))
      | inr (some page, e) ↦ rw e (respond-Headed sys types line headers none page)
    ]
open_result-Headed sys types host line headers none false (some p) ok =
    elim (Option-cases (sys.fopen p)) [
      | inl e ↦ rw e (refuse-Headed sys _ _ (omega arith))
      | inr (file, e) ↦ rw e (respond-Headed sys types line headers (some p) file)
    ]

with_url-Headed :
    (sys : System) (types : List MimeType) (host : HostConfig) (line : RequestLine)
    (headers : List Header) (uri : Bytes) (parsed : Bool × Option (ℕ × ℕ))
    → Headed
        (with_url sys types host (by_get line) headers uri parsed)
        (with_url sys types host (by_head line) headers uri parsed)
unfolding with_url
with_url-Headed sys types host line headers uri (true, p) = refuse-Headed sys _ _ (omega arith)
with_url-Headed sys types host line headers uri (false, none) = refuse-Headed sys _ _ (omega arith)
with_url-Headed sys types host line headers uri (false, some (off, len)) =
    bind_Headed host.serve_dir _ _ (λ d _.
      let result = server_determine_file sys host d (d ++ take len (drop off uri)) in
      open_result-Headed sys types host line headers result.error result.dir result.path
        (determine_file-IsRefusal sys host d (d ++ take len (drop off uri))))

process_host-Headed :
    (sys : System) (types : List MimeType) (config : ServerConfig) (line : RequestLine)
    (headers : List Header) (name : Option Bytes)
    → Headed
        (process_host sys types config (by_get line) headers name)
        (process_host sys types config (by_head line) headers name)
unfolding process_host process_line valid_method
process_host-Headed sys types config line headers name =
    bind_Headed (config_server_gethost config name) _ _ (elim [
      | none ↦ λ _. refuse-Headed sys _ _ (omega arith)
      | some host ↦ λ _.
          bind_Headed line.uri _ _
            (λ uri _. with_url-Headed sys types host line headers uri (sys.parse_url uri))
    ])

-- The same request by GET and by HEAD. Either both end in a fault, or both get the same reply with a
-- code of at least 400, or GET is answered with code 200, and then HEAD with the same line and headers
-- and no body.
pub process_request-Headed :
    (sys : System) (types : List MimeType) (config : ServerConfig) (request : Request)
    (line : RequestLine)
    → Headed
        (server_process_request sys types config
          (record request { req = some (record line { method = get }) }))
        (server_process_request sys types config
          (record request { req = some (record line { method = head }) }))
unfolding server_process_request
process_request-Headed sys types config request line =
    bind_Headed (wanted_host line.version request.headers) _ _ (elim [
      | missing ↦ λ _. refuse-Headed sys _ _ (omega arith)
      | asked name ↦ λ _. process_host-Headed sys types config line request.headers name
    ])
