-- ===== src/Server/Examples.antt =====
-- The theorems on the models of src/http-server.c and src/mime.c at a concrete site.
use khttp.Common.{
  ◌*◌, ◌^◌, ◌≤◌, ◌≡◌, refl, ◌≢◌, ◌↔◌, true, false, none, some, List, [], ◌∷◌, arith, length, All,
  codes, str_case_eq, str_prefix,
}
use khttp.Util.Replace.{split_sub}
use khttp.Config.{HostConfig, ServerConfig, config_server_gethost}
use khttp.Http.Method.{get, head}
use khttp.Http.Header.{http_header_list_get, http_header_list_add, http_header_new}
use khttp.Http.Body.{body_file, body_none, null, live, http_body_set_type}
use khttp.Http.Response.{Response, http11, send_response_line, http_response_line_new}
use khttp.Http.Request.{Request, RequestLine, parse_done}
use khttp.Mime.{MimeType, mime_list_get_type}
use khttp.Server.Files.{System, regular, server_determine_file}
use khttp.Server.Confinement.{determine_file-inside}
use khttp.Server.Filesize.{server_get_filesize, filesize_faults}
use khttp.Server.Process.{server_process_request}
use khttp.Server.Process.Outcomes.{Outcome, server_process_request-Outcome}
use khttp.Server.Process.Closing.{Persistent, process_request-Persistent}
use khttp.Server.Process.Heads.{Headed, process_request-Headed}

abbrev types : List MimeType
types = record { extension = codes "html"; mime = codes "text/html" } ∷ []

plain_html : All (λ c. c ≢ b'.') (codes "html")
plain_html = (omega arith, (omega arith, (omega arith, (omega arith, tt))))

-- Every path is its own real path and names a regular file.
abbrev site : System
site = record {
  realpath = λ p. some p;
  stat = λ p. some regular;
  entries = λ p. none;
  fopen = λ p. some (codes "hello");
  magic = λ p. none;
  parse_url = λ uri. (false, some (0, length uri));
  mtime = λ p. codes "now";
  basename = λ p. p;
  dirindex_page = none;
  error_page = none;
}

abbrev www : HostConfig
www = record {
  hostname = some (codes "localhost");
  default_host = true;
  enabled = true;
  serve_dir = some (codes "/srv");
  index_files = [];
  dir_listings = false;
}

abbrev config : ServerConfig
config = record {
  servername = codes "khttp";
  administrator = codes "khttp";
  listen_port = 80;
  hosts = www ∷ [];
}

a_file :
    (server_determine_file site www (codes "/srv") (codes "/srv/a")).path ≡ some (codes "/srv/a")
unfolding server_determine_file
a_file = refl

determine_file-inside_example : str_prefix (codes "/srv") (codes "/srv/a") ≡ true
determine_file-inside_example =
    determine_file-inside site www (codes "/srv") (codes "/srv/a") a_file

srv_once : split_sub (codes "/srv") (b'/' ∷ codes "sub/a") ≡ none
unfolding split_sub
srv_once = refl

filesize_faults_example : (server_get_filesize (some 2000) ≡ none) ↔ (1025 * 1024 ^ 4 ≤ 2000)
filesize_faults_example = filesize_faults 2000

abbrev a_line : RequestLine
a_line = record { method = get; method_other = none; uri = some (codes "/a"); version = http11 }

abbrev a_request : Request
a_request = record {
  req = some a_line;
  parsestatus = parse_done;
  headers = record { name = codes "Host"; content = some (codes "localhost") } ∷ [];
  body = record { type = body_none; roffset = 0; ptr = null };
}

process_request-Outcome_example :
    Outcome site types config a_line a_request.headers
      (server_process_request site types config a_request)
process_request-Outcome_example =
    server_process_request-Outcome site types config a_request a_line refl

abbrev a_reply : Response
a_reply = record {
  line = record { version = http11; code = 200; custom_message = none };
  headers = record { name = codes "Content-Type"; content = some (codes "text/plain") } ∷ [];
  body_chunked = false;
  body = record { type = body_file; roffset = 0; ptr = live (codes "hello") };
  send_status = send_response_line;
}

a_request_replied : server_process_request site types config a_request ≡ some a_reply
unfolding server_process_request http_header_list_get config_server_gethost str_case_eq
    server_determine_file http_header_list_add http_body_set_type http_response_line_new
    http_header_new mime_list_get_type
a_request_replied = refl

process_request-Persistent_example :
    (a_reply.line.code ≡ 200) × Persistent a_line.version a_request.headers
process_request-Persistent_example =
    process_request-Persistent site types config a_request a_line a_reply refl a_request_replied
      ((λ e. ground (arith, e)), tt)

process_request-Headed_example :
    Headed
      (server_process_request site types config
        (record a_request { req = some (record a_line { method = get }) }))
      (server_process_request site types config
        (record a_request { req = some (record a_line { method = head }) }))
process_request-Headed_example = process_request-Headed site types config a_request a_line
