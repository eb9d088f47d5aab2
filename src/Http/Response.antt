-- ===== src/Http/Response.antt =====
-- Responses of src/http.c and src/http.h: the status line, the headers that the server adds, and
-- the order in which a response is sent. `none` is a fault.
pub mod Typed
pub mod Standard
pub mod Write
pub mod Printed
use khttp.Common.{
  ◌>>=◌, ℕ, ◌%◌, ◌^◌, Bool, true, false, Option, none, some, List, [], ◌∷◌, ◌++◌, ◌==◌,
  if◌then◌else◌, length, Bytes, codes, print_base,
}
use khttp.Http.Header.{
  Header, http_header_new, http_header_list_new, http_header_list_get, http_header_list_add,
}
use khttp.Http.Body.{
  Body, BodyType, body_none, body_string, null, http_body_new, http_body_len, http_body_append_str,
}

pub data Version : Type 0 where
  http10 http11 httpxx : Version

pub data SendStatus : Type 0 where
  send_response_line send_headers send_body send_done : SendStatus

pub record ResponseLine : Type 0 where
  pub version : Version
  pub code : ℕ
  pub custom_message : Option Bytes

pub record Response : Type 0 where
  pub line : ResponseLine
  pub headers : List Header
  pub body_chunked : Bool
  pub body : Body
  pub send_status : SendStatus

-- HEADER_… of http.h.
abbrev pub header_content_type : Bytes
header_content_type = codes "Content-Type"

abbrev pub header_content_length : Bytes
header_content_length = codes "Content-Length"

abbrev pub header_server : Bytes
header_server = codes "Server"

abbrev pub header_host : Bytes
header_host = codes "Host"

abbrev pub header_transfer_encoding : Bytes
header_transfer_encoding = codes "Transfer-Encoding"

abbrev pub header_date : Bytes
header_date = codes "Date"

abbrev pub header_connection : Bytes
header_connection = codes "Connection"

abbrev pub default_content_type : Bytes
default_content_type = codes "text/plain"

unfoldable pub http_response_line_new : ℕ → ResponseLine
http_response_line_new code = record { version = http11; code = code; custom_message = none }

-- The cases of the `switch`.
abbrev messages : List (ℕ × Bytes)
messages =
    (100, codes "Continue")
    ∷ (101, codes "Switching Protocols")
    ∷ (200, codes "OK")
    ∷ (201, codes "Created")
    ∷ (202, codes "Accepted")
    ∷ (203, codes "Non-Authoritative Information")
    ∷ (204, codes "No Content")
    ∷ (205, codes "Reset Content")
    ∷ (206, codes "Partial Content")
    ∷ (300, codes "Multiple Choices")
    ∷ (301, codes "Moved Permanently")
    ∷ (302, codes "Found")
    ∷ (303, codes "See Other")
    ∷ (304, codes "Not Modified")
    ∷ (305, codes "Use Proxy")
    ∷ (307, codes "Temporary Redirect")
    ∷ (400, codes "Bad Request")
    ∷ (401, codes "Unauthorized")
    ∷ (403, codes "Forbidden")
    ∷ (404, codes "Not Found")
    ∷ (405, codes "Method Not Allowed")
    ∷ (406, codes "Not Acceptable")
    ∷ (407, codes "Proxy Authentication Required")
    ∷ (408, codes "Request Timeout")
    ∷ (409, codes "Conflict")
    ∷ (410, codes "Gone")
    ∷ (411, codes "Length Required")
    ∷ (412, codes "Precondition Failed")
    ∷ (413, codes "Request Entity Too Large")
    ∷ (414, codes "Request-URI Too Long")
    ∷ (415, codes "Unsupported Media Type")
    ∷ (416, codes "Requested Range Not Satisfiable")
    ∷ (417, codes "Expectation Failed")
    ∷ (500, codes "Internal Server Error")
    ∷ (501, codes "Not Implemented")
    ∷ (502, codes "Bad Gateway")
    ∷ (503, codes "Service Unavailable")
    ∷ (504, codes "Gateway Timeout")
    ∷ (505, codes "HTTP Version Not Supported")
    ∷ []

message_at : ℕ → List (ℕ × Bytes) → Bytes
message_at code [] = []
message_at code ((c, text) ∷ rest) = if c == code then text else message_at code rest

unfoldable pub http_response_line_get_message : ResponseLine → Bytes
unfolding message_at
http_response_line_get_message line = elim line.custom_message [
  | some text ↦ text
  | none ↦ message_at line.code messages
]

unfoldable pub http_response_new : ResponseLine → Response
unfolding http_header_list_new http_body_new
http_response_new line = record {
  line = line;
  headers = http_header_list_new;
  body_chunked = false;
  body = http_body_new body_none null;
  send_status = send_response_line;
}

unfoldable pub http_response_append_body : Response → Bytes → Option Response
unfolding http_body_append_str
http_response_append_body resp text = do
  (body, _) ← http_body_append_str resp.body text (length text)
  some (record resp { body = body })

abbrev pub crlf : Bytes
crlf = 13 ∷ 10 ∷ []

-- printf's %s, which glibc prints for NULL too.
abbrev pub print_string : Option Bytes → Bytes
print_string none = codes "(null)"
print_string (some s) = s

-- "%s: %s\r\n" for each header.
unfoldable pub print_headers : List Header → Bytes
print_headers [] = []
print_headers (h ∷ hs) =
    h.name ++ (codes ": " ++ (print_string h.content ++ (crlf ++ print_headers hs)))

abbrev pub print_version : Version → Bytes
print_version http10 = codes "HTTP/1.0 "
print_version http11 = codes "HTTP/1.1 "
print_version httpxx = []

unfoldable pub status_line : ResponseLine → Bytes
status_line line =
    print_version line.version
    ++ (print_base 10 line.code ++ (codes " " ++ (http_response_line_get_message line ++ crlf)))

abbrev pub u32_mod : ℕ
u32_mod = 2 ^ 32

-- The headers that a response gets before it is printed; `date` is the time as `strftime` writes it.
pub standard_headers : Bytes → Response → Option (List Header)
unfolding http_header_list_add http_header_new http_body_len
standard_headers date resp = do
  len ← http_body_len resp.body
  hs ←
      http_header_list_add resp.headers
        (if resp.body_chunked
          then http_header_new header_transfer_encoding (some (codes "chunked"))
          else http_header_new header_content_length (some (print_base 10 (len % u32_mod))))
        true
  hs ← (elim (http_header_list_get hs (some header_content_type)) [
    | none ↦
        http_header_list_add hs (http_header_new header_content_type (some default_content_type))
          false
    | some _ ↦ some hs
  ])
  hs ← http_header_list_add hs (http_header_new header_date (some date)) true
  http_header_list_add hs (http_header_new header_server (some (codes "KHTTP/0.1"))) true

write_headers : Bytes → Response → Bytes → Option (Option Bytes × Response)
unfolding standard_headers print_headers
write_headers date resp out = do
  hs ← (if resp.line.code == 100 then some resp.headers else standard_headers date resp)
  some (
    some (out ++ (print_headers hs ++ crlf)),
    record resp { headers = hs; send_status = send_body },
  )

write_from : SendStatus → Bytes → Response → Option (Option Bytes × Response)
unfolding write_headers status_line
write_from send_response_line date resp = write_headers date resp (status_line resp.line)
write_from send_headers date resp = write_headers date resp []
write_from send_body date resp = some (none, resp)
write_from send_done date resp = some (none, resp)

-- The text is `none` where the function returns NULL.
unfoldable pub http_response_write : Bytes → Response → Option (Option Bytes × Response)
unfolding write_from
http_response_write date resp = write_from resp.send_status date resp
