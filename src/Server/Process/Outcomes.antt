-- ===== src/Server/Process/Outcomes.antt =====
-- The ways in which `server_process_request` of src/http-server.c ends.
use khttp.Common.{
  ◌≤◌, ◌≢◌, arith, bind_cases, ℕ, ◌≡◌, refl, inl, inr, Bool, true, false, Option, none, some, List,
  ◌++◌, if_cases, not, codes, Option-cases, take, drop, Bytes, str_prefix,
}
use khttp.Config.{HostConfig, ServerConfig, config_server_gethost}
use khttp.Http.Header.{Header}
use khttp.Http.Header.First.{Lacks}
use khttp.Http.Response.{Response, http11, header_host}
use khttp.Http.Request.{Request, RequestLine}
use khttp.Mime.{MimeType}
use khttp.Server.Files.{System, FileResult, server_determine_file}
use khttp.Http.Method.{get, head, post}
use khttp.Server.Refusals.{IsRefusal, determine_file-IsRefusal}
use khttp.Server.Confinement.{determine_file-inside}
use khttp.Server.Listing.{server_generate_directory_index}
use khttp.Server.Process.{
  missing, asked, wanted_host, valid_method, refuse, respond, open_result, with_url, process_line,
  process_host, server_process_request,
}
use khttp.Server.Process.Wanted.{Asks, wanted_host-Asks, wanted_host-missing, not_valid}

module _ (sys : System) (types : List MimeType) (config : ServerConfig) where
  -- What a request aims at: the host that the configuration has for the name that the request asks
  -- for, with its served directory, and the path that the URL parser finds in the request's URI.
  pub record Aim (line : RequestLine) (headers : List Header) : Type 0 where
    pub name : Option Bytes
    pub asks : Asks line.version headers name
    pub host : HostConfig
    pub found : config_server_gethost config name ≡ some (some host)
    pub serve_dir : Bytes
    pub served : host.serve_dir ≡ some serve_dir
    pub uri : Bytes
    pub wants : line.uri ≡ some uri
    pub off : ℕ
    pub len : ℕ
    pub parsed : sys.parse_url uri ≡ (false, some (off, len))

  -- What is found for the served directory with the path behind it.
  abbrev pub aimed : {line : RequestLine} {headers : List Header} → Aim line headers → FileResult
  aimed at =
      server_determine_file sys at.host at.serve_dir
        (at.serve_dir ++ take at.len (drop at.off at.uri))

  -- Why a request gets a built-in page, and the code and the message of the page.
  pub data Refusal (line : RequestLine) (headers : List Header) : ℕ → Bytes → Type 0 where
    no_host_header :
        line.version ≡ http11
        → Lacks header_host headers
        → Refusal line headers 400 (codes "Host header required")
    no_host :
        (name : Option Bytes)
        → Asks line.version headers name
        → config_server_gethost config name ≡ some none
        → Refusal line headers 500
            (codes "Server configuration error. Host not provided and default not found.")
    bad_method :
        (line.method ≢ get) × (line.method ≢ head) × (line.method ≢ post)
        → Refusal line headers 411 (codes "Method is not valid")
    bad_uri :
        (uri : Bytes) (path : Option (ℕ × ℕ))
        → line.uri ≡ some uri
        → sys.parse_url uri ≡ (true, path)
        → Refusal line headers 400 (codes "Invalid request")
    no_path :
        (uri : Bytes)
        → line.uri ≡ some uri
        → sys.parse_url uri ≡ (false, none)
        → Refusal line headers 400 (codes "URI is required or was invalid")
    no_file :
        (at : Aim line headers) {code : ℕ} {message : Bytes}
        → (aimed at).error ≡ some (code, message)
        → 400 ≤ code
        → Refusal line headers code message
    no_listing :
        (at : Aim line headers) (path : Bytes)
        → (aimed at).path ≡ some path
        → server_generate_directory_index sys at.host path ≡ some none
        → Refusal line headers 500 (codes "Failed to generate directory index")
    not_opened :
        (at : Aim line headers) (path : Bytes)
        → (aimed at).path ≡ some path
        → sys.fopen path ≡ none
        → Refusal line headers 404 (codes "File not found")

  pub data Outcome (line : RequestLine) (headers : List Header) : Option Response → Type 0 where
    faults : Outcome line headers none
    refuses :
        (code : ℕ) (message : Bytes)
        → Refusal line headers code message
        → Outcome line headers (refuse sys code message)
    lists :
        (at : Aim line headers) (path : Bytes) {page : Bytes}
        → (aimed at).path ≡ some path
        → str_prefix at.serve_dir path ≡ true
        → server_generate_directory_index sys at.host path ≡ some (some page)
        → Outcome line headers (respond sys types line headers none page)
    serves :
        (at : Aim line headers) (path : Bytes) {file : Bytes}
        → (aimed at).path ≡ some path
        → str_prefix at.serve_dir path ≡ true
        → sys.fopen path ≡ some file
        → Outcome line headers (respond sys types line headers (some path) file)

  inside :
      {line : RequestLine} {headers : List Header} (at : Aim line headers) {path : Bytes}
      → (aimed at).path ≡ some path
      → str_prefix at.serve_dir path ≡ true
  inside at e =
      determine_file-inside sys at.host at.serve_dir
        (at.serve_dir ++ take at.len (drop at.off at.uri)) e

  open_result-Outcome :
      (line : RequestLine) (headers : List Header) (at : Aim line headers)
      (error : Option (ℕ × Bytes)) (dir : Bool) (path : Option Bytes)
      → IsRefusal error
      → (aimed at).error ≡ error
      → (aimed at).path ≡ path
      → Outcome line headers (
          open_result sys types at.host line headers
            (record { error = error; dir = dir; path = path }))
  unfolding open_result
  open_result-Outcome line headers at (some (code, m)) dir path bad failed e =
      refuses code m (no_file at failed bad)
  open_result-Outcome line headers at none dir none ok failed e = faults
  open_result-Outcome line headers at none true (some p) ok failed e =
      elim (Option-cases (server_generate_directory_index sys at.host p)) [
        | inl e0 ↦ rw e0 faults
        | inr (none, e1) ↦ rw e1 (refuses _ _ (no_listing at p e e1))
        | inr (some page, e1) ↦ rw e1 (lists at p e (inside at e) e1)
      ]
  open_result-Outcome line headers at none false (some p) ok failed e =
      elim (Option-cases (sys.fopen p)) [
        | inl e0 ↦ rw e0 (refuses _ _ (not_opened at p e e0))
        | inr (file, e1) ↦ rw e1 (serves at p e (inside at e) e1)
      ]

  with_url-Outcome :
      (line : RequestLine) (headers : List Header) (name : Option Bytes)
      → Asks line.version headers name
      → (host : HostConfig) → config_server_gethost config name ≡ some (some host)
      → (uri : Bytes) → line.uri ≡ some uri
      → (parsed : Bool × Option (ℕ × ℕ)) → sys.parse_url uri ≡ parsed
      → Outcome line headers (with_url sys types host line headers uri parsed)
  unfolding with_url
  with_url-Outcome line headers name asks host found uri wants (true, p) e =
      refuses _ _ (bad_uri uri p wants e)
  with_url-Outcome line headers name asks host found uri wants (false, none) e =
      refuses _ _ (no_path uri wants e)
  with_url-Outcome line headers name asks host found uri wants (false, some (off, len)) e =
      bind_cases (Outcome line headers) host.serve_dir _ faults (λ d served.
        open_result-Outcome line headers
          (record {
            name = name;
            asks = asks;
            host = host;
            found = found;
            serve_dir = d;
            served = served;
            uri = uri;
            wants = wants;
            off = off;
            len = len;
            parsed = e;
          })
          _ _ _ (determine_file-IsRefusal sys host d (d ++ take len (drop off uri))) refl refl)

  process_line-Outcome :
      (line : RequestLine) (headers : List Header) (name : Option Bytes)
      → Asks line.version headers name
      → (host : HostConfig) → config_server_gethost config name ≡ some (some host)
      → Outcome line headers (process_line sys types host line headers)
  unfolding process_line
  process_line-Outcome line headers name asks host found =
      if_cases (Outcome line headers) (not (valid_method line.method))
        (λ e. refuses _ _ (bad_method (not_valid line.method (ground (arith, e)))))
        (λ e. bind_cases (Outcome line headers) line.uri _ faults (λ uri wants.
          with_url-Outcome line headers name asks host found uri wants (sys.parse_url uri) refl))

  process_host-Outcome :
      (line : RequestLine) (headers : List Header) (name : Option Bytes)
      → Asks line.version headers name
      → Outcome line headers (process_host sys types config line headers name)
  unfolding process_host
  process_host-Outcome line headers name asks =
      bind_cases (Outcome line headers) (config_server_gethost config name) _ faults (elim [
        | none ↦ λ e. refuses _ _ (no_host name asks e)
        | some host ↦ λ e. process_line-Outcome line headers name asks host e
      ])

  -- A request with a request line ends in a fault, in a built-in page, in the listing of a directory,
  -- or in a file. A page is for one of eight reasons, each with its code and message: HTTP/1.1 without
  -- a header spelled Host; no host for the name asked for, which is what the first such header says
  -- in HTTP/1.1, and no name else; a method but GET, HEAD and POST; a URI that cannot be read, or without a
  -- path; an error of the look-up of the path in the directory that the host serves, of code 400 at
  -- least; a listing that fails; a file that cannot be opened. What is listed or served is what this
  -- look-up finds, and its path starts with the bytes of that directory.
  pub server_process_request-Outcome :
      (request : Request) (line : RequestLine)
      → request.req ≡ some line
      → Outcome line request.headers (server_process_request sys types config request)
  unfolding server_process_request
  server_process_request-Outcome request line here = rw here (
      bind_cases (Outcome line request.headers) (wanted_host line.version request.headers) _ faults
        (elim [
          | missing ↦ λ e.
              (let (is11, lacks) = wanted_host-missing line.version request.headers e in
                refuses _ _ (no_host_header is11 lacks))
          | asked name ↦ λ e.
              process_host-Outcome line request.headers name
                (wanted_host-Asks line.version request.headers name e)
        ]))
