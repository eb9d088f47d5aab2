-- ===== src/Http/Request.antt =====
-- Requests of src/http.c and src/http.h. `none` is a failed assertion or another fault.
use khttp.Common.{
  ◌>>=◌, Bool, true, false, Option, none, some, List, ◌++◌, if◌then◌else◌, length, Bytes, codes,
}
use khttp.Http.Method.{Method, other, http_method_getstring}
use khttp.Http.Header.{Header, http_header_list_new}
use khttp.Http.Body.{
  Body, body_none, null, http_body_new, http_body_append_str, http_body_writeto_utstring,
}
use khttp.Http.Response.{Version, http10, http11, httpxx, crlf, print_string, print_headers}

pub record RequestLine : Type 0 where
  pub method : Method
  pub method_other : Option Bytes
  pub uri : Option Bytes
  pub version : Version

pub data ParseStatus : Type 0 where
  parse_requestline parse_headers parse_body parse_done parse_fail : ParseStatus

pub record Request : Type 0 where
  pub req : Option RequestLine
  pub parsestatus : ParseStatus
  pub headers : List Header
  pub body : Body

abbrev is_other : Method → Bool
is_other other = true
is_other _ = false

-- METHOD_OTHER needs a name.
unfoldable pub http_request_line_new : Method → Option Bytes → Option RequestLine
http_request_line_new method name =
    if is_other method
    then (elim name [
      | none ↦ none
      | some text ↦
          some (record { method = method; method_other = some text; uri = none; version = httpxx })
    ])
    else some (record { method = method; method_other = none; uri = none; version = httpxx })

unfoldable pub http_request_new : Request
unfolding http_header_list_new http_body_new
http_request_new = record {
  req = none;
  parsestatus = parse_requestline;
  headers = http_header_list_new;
  body = http_body_new body_none null;
}

unfoldable pub http_request_append_body : Request → Bytes → Option Request
unfolding http_body_append_str
http_request_append_body req text = do
  (body, _) ← http_body_append_str req.body text (length text)
  some (record req { body = body })

abbrev version_text : Version → Bytes
version_text http10 = codes "HTTP/1.0"
version_text http11 = codes "HTTP/1.1"
version_text httpxx = codes "HTTP/1.1"

-- The request as text; `broken` says that reads of a body's file fail.
unfoldable pub http_request_write : Bool → Request → Option (Bytes × Request)
unfolding http_method_getstring print_headers http_body_writeto_utstring
http_request_write broken req = do
  line ← req.req
  method ← http_method_getstring line.method line.method_other
  let head =
      method
      ++ (codes " "
          ++ (print_string line.uri ++ (codes " " ++ (version_text line.version ++ crlf))))
  (_, body, out) ←
      http_body_writeto_utstring broken req.body (head ++ (print_headers req.headers ++ crlf))
  some (out, record req { body = body })
