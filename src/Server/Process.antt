-- ===== src/Server/Process.antt =====
-- `server_process_request` of src/http-server.c, stage by stage. The outer `none` of a result is a
-- fault: a NULL pointer that the C code reads, or a reply that cannot be built.
pub mod Heads
pub mod Wanted
pub mod Outcomes
pub mod Closing
use khttp.Common.{
  ◌>>=◌, ℕ, Bool, true, false, not, ◌&&◌, ◌||◌, Option, none, some, List, ◌++◌, if◌then◌else◌, take,
  drop, Bytes, codes, str_case_eq,
}
use khttp.Config.{HostConfig, ServerConfig, config_server_gethost}
use khttp.Http.Method.{Method, get, head, post}
use khttp.Http.Header.{Header, http_header_new, http_header_list_get, http_header_list_add}
use khttp.Http.Body.{Body, body_none, body_file, live, http_body_set_type}
use khttp.Http.Response.{
  Version, http10, http11, httpxx, Response, header_content_type, header_host, header_connection,
  default_content_type, http_response_new, http_response_line_new,
}
use khttp.Http.Builtin.{http_response_create_builtin}
use khttp.Http.Request.{Request, RequestLine}
use khttp.Mime.{MimeType, mime_list_get_type}
use khttp.Server.Listing.{server_generate_directory_index}
use khttp.Server.Files.{System, FileResult, server_determine_file}

-- A reply of every early return: a built-in page and `Connection: close`.
unfoldable pub refuse : System → ℕ → Bytes → Option Response
refuse sys code message = do
  resp ← http_response_create_builtin sys.error_page code (some message)
  hs ←
      http_header_list_add resp.headers (http_header_new header_connection (some (codes "close")))
        false
  some (record resp { headers = hs })

pub data HostName : Type 0 where
  missing : HostName
  asked : Option Bytes → HostName

-- The host name to look for: HTTP/1.1 needs a Host header, which is copied and must not be NULL.
unfoldable pub wanted_host : Version → List Header → Option HostName
wanted_host http11 headers = elim (http_header_list_get headers (some header_host)) [
  | none ↦ some missing
  | some h ↦ elim h.content [ none ↦ none | some name ↦ some (asked (some name)) ]
]
wanted_host http10 headers = some (asked none)
wanted_host httpxx headers = some (asked none)

unfoldable pub valid_method : Method → Bool
valid_method get = true
valid_method head = true
valid_method post = true
valid_method _ = false

-- The header that says how the connection goes on; its content must not be NULL.
unfoldable pub content_is : Option Header → Bytes → Option Bool
content_is none text = some false
content_is (some h) text = elim h.content [ none ↦ none | some c ↦ some (str_case_eq c text) ]

abbrev pub is_http10 : Version → Bool
is_http10 http10 = true
is_http10 _ = false

unfoldable pub close_connection : Version → List Header → Option Bool
unfolding content_is
close_connection version headers = do
  let connection = http_header_list_get headers (some header_connection)
  requested ← content_is connection (codes "close")
  kept ← (if requested then some true else content_is connection (codes "Keep-Alive"))
  some (requested || (is_http10 version && not kept))

abbrev pub is_head : Method → Bool
is_head head = true
is_head _ = false

-- The type of a file by its name; the temporary file of a directory listing has no name.
unfoldable pub content_type : System → List MimeType → Option Bytes → Bytes
content_type sys types none = codes "text/html"
content_type sys types (some path) = mime_list_get_type sys.magic types path default_content_type

unfoldable pub file_body : Method → Bytes → Body → Option Body
file_body method file body =
    if is_head method
    then http_body_set_type body body_none
    else (elim (http_body_set_type body body_file) [
      | none ↦ none
      | some opened ↦ some (record opened { ptr = live file })
    ])

unfoldable pub add_close : Bool → List Header → Option (List Header)
add_close false headers = some headers
add_close true headers =
    http_header_list_add headers (http_header_new header_connection (some (codes "close"))) false

-- The reply with the opened file.
unfoldable pub respond :
    System → List MimeType → RequestLine → List Header → Option Bytes → Bytes → Option Response
unfolding close_connection content_type file_body add_close http_response_new
respond sys types line headers path file = do
  let fresh = http_response_new (http_response_line_new 200)
  let status = fresh.line
  hs ←
      http_header_list_add fresh.headers
        (http_header_new header_content_type (some (content_type sys types path))) false
  body ← file_body line.method file fresh.body
  close ← close_connection line.version headers
  hs2 ← add_close close hs
  some
      (record fresh { line = record status { version = line.version }; headers = hs2; body = body })

-- What `server_determine_file` found is opened: a listing is generated, and a path that stayed NULL
-- is a fault.
unfoldable pub open_result :
    System → List MimeType → HostConfig → RequestLine → List Header → FileResult → Option Response
unfolding respond refuse
open_result sys types host line headers result = elim result.error [
  | some (code, message) ↦ refuse sys code message
  | none ↦ elim result.path [
    | none ↦ none
    | some path ↦
        if result.dir
        then (elim (server_generate_directory_index sys host path) [
          | none ↦ none
          | some none ↦ refuse sys 500 (codes "Failed to generate directory index")
          | some (some page) ↦ respond sys types line headers none page
        ])
        else (elim (sys.fopen path) [
          | none ↦ refuse sys 404 (codes "File not found")
          | some file ↦ respond sys types line headers (some path) file
        ])
  ]
]

-- What the URL parser says about the request's `uri`: the path is cut out and put behind the served
-- directory.
unfoldable pub with_url :
    System
    → List MimeType
    → HostConfig
    → RequestLine
    → List Header
    → Bytes
    → Bool × Option (ℕ × ℕ)
    → Option Response
unfolding open_result refuse
with_url sys types host line headers uri (true, found) = refuse sys 400 (codes "Invalid request")
with_url sys types host line headers uri (false, none) =
    refuse sys 400 (codes "URI is required or was invalid")
with_url sys types host line headers uri (false, some (off, len)) = do
  serve_dir ← host.serve_dir
  open_result sys types host line headers
      (server_determine_file sys host serve_dir (serve_dir ++ take len (drop off uri)))

unfoldable pub process_line :
    System → List MimeType → HostConfig → RequestLine → List Header → Option Response
unfolding with_url refuse valid_method
process_line sys types host line headers =
    if not (valid_method line.method)
    then refuse sys 411 (codes "Method is not valid")
    else (line.uri >>= (λ uri. with_url sys types host line headers uri (sys.parse_url uri)))

unfoldable pub process_host :
    System
    → List MimeType
    → ServerConfig
    → RequestLine
    → List Header
    → Option Bytes
    → Option Response
unfolding process_line refuse
process_host sys types config line headers name = do
  found ← config_server_gethost config name
  elim found [
    | none ↦
        refuse sys 500
          (codes "Server configuration error. Host not provided and default not found.")
    | some host ↦ process_line sys types host line headers
  ]

unfoldable pub server_process_request :
    System → List MimeType → ServerConfig → Request → Option Response
unfolding process_host wanted_host refuse
server_process_request sys types config request = do
  line ← request.req
  name ← wanted_host line.version request.headers
  elim name [
    | missing ↦ refuse sys 400 (codes "Host header required")
    | asked host ↦ process_host sys types config line request.headers host
  ]
