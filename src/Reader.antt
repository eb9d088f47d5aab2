-- ===== src/Reader.antt =====
-- The callbacks of src/http-reader.c, which build a request while the vendored parser walks the
-- input, and the parse state of src/server-connection.c and src/server-connection.h. What the
-- callbacks read of the parser is a parameter; `none` is a fault.
pub mod Headers
pub mod Bodies
pub mod Pipelined
pub mod Examples
use khttp.Common.{
  ◌>>=◌, ℕ, Bool, true, false, Option, none, some, List, [], ◌∷◌, ◌++◌, ◌==◌, if◌then◌else◌, Bytes,
}
use khttp.Http.Method.{Method, http_method_fromstring}
use khttp.Http.Header.{Header, http_header_new, http_header_append_content, http_header_list_add}
use khttp.Http.Response.{Version, http10, http11}
use khttp.Http.Request.{
  Request, RequestLine, http_request_line_new, http_request_new, http_request_append_body,
}

pub data HeaderState : Type 0 where
  hstate_none hstate_value hstate_field : HeaderState

pub record ParseState : Type 0 where
  pub current_request : Option Request
  pub request_complete : Bool
  pub current_header : Option Header
  pub header_state : HeaderState

-- The fields of `http_parser` that the callbacks read: the method's name and the version.
pub record Parser : Type 0 where
  pub method : Bytes
  pub http_major : ℕ
  pub http_minor : ℕ

pub data ReturnCode : Type 0 where
  rc_zero rc_one rc_minus_one : ReturnCode

unfoldable pub server_parse_status_new : ParseState
server_parse_status_new = record {
  current_request = none;
  request_complete = false;
  current_header = none;
  header_state = hstate_none;
}

-- The request is handed on to the worker, so it is not deleted.
unfoldable pub server_parser_status_reset : ParseState → ParseState
server_parser_status_reset s = record s {
  current_request = none;
  request_complete = false;
  header_state = hstate_none;
  current_header = none;
}

unfoldable pub parser_cb_on_message_begin : ParseState → Option (ParseState × ReturnCode)
unfolding http_request_new
parser_cb_on_message_begin s =
    some (record s { current_request = some http_request_new; request_complete = false }, rc_zero)

unfoldable pub parser_cb_on_url : Parser → Bytes → ParseState → Option (ParseState × ReturnCode)
parser_cb_on_url p str s = do
  request ← s.current_request
  line ← http_request_line_new (http_method_fromstring p.method) none
  some (
    record s {
      current_request = some (record request { req = some (record line { uri = some str }) });
    },
    rc_zero,
  )

unfoldable pub parser_cb_on_status : Bytes → ParseState → Option (ParseState × ReturnCode)
parser_cb_on_status str s = some (s, rc_zero)

-- The version that the parser has seen, if it is one that the server speaks.
abbrev version_of : Parser → Option Version
version_of p =
    if p.http_major == 1
    then (if p.http_minor == 0
        then some http10
        else if p.http_minor == 1
        then some http11
        else none)
    else none

set_version : Version → Request → Option Request
set_version v request = do
  line ← request.req
  some (record request { req = some (record line { version = v }) })

-- `http_header_list_add` of the current header to the request.
save_header : Header → ParseState → Option ParseState
unfolding http_header_list_add
save_header h s = do
  request ← s.current_request
  hs ← http_header_list_add request.headers h false
  some (record s { current_request = some (record request { headers = hs }) })

save_current : ParseState → Option ParseState
unfolding save_header
save_current s = elim s.current_header [ none ↦ some s | some h ↦ save_header h s ]

abbrev start_header : Bytes → ParseState → ParseState
start_header str s = record s { current_header = some (record { name = str; content = none }) }

-- The first header also brings the version; a version that is not spoken ends the callback there.
first_header : Parser → Bytes → ParseState → Option (ParseState × ReturnCode)
unfolding set_version
first_header p str s = elim (version_of p) [
  | none ↦ some (start_header str s, rc_minus_one)
  | some v ↦ do
    request ← s.current_request
    request' ← set_version v request
    let s' = start_header str s
    some (record s' { current_request = some request'; header_state = hstate_field }, rc_zero)
]

next_header : Bytes → ParseState → Option (ParseState × ReturnCode)
unfolding save_current
next_header str s = do
  saved ← save_current s
  let s' = start_header str saved
  some (record s' { header_state = hstate_field }, rc_zero)

more_name : Bytes → ParseState → Option (ParseState × ReturnCode)
more_name str s = do
  h ← s.current_header
  some (record s { current_header = some (record h { name = h.name ++ str }) }, rc_zero)

header_field : HeaderState → Parser → Bytes → ParseState → Option (ParseState × ReturnCode)
unfolding first_header next_header more_name
header_field hstate_none p str s = first_header p str s
header_field hstate_value p str s = next_header str s
header_field hstate_field p str s = more_name str s

unfoldable pub parser_cb_on_header_field :
    Parser → Bytes → ParseState → Option (ParseState × ReturnCode)
unfolding header_field
parser_cb_on_header_field p str s = header_field s.header_state p str s

unfoldable pub parser_cb_on_header_value : Bytes → ParseState → Option (ParseState × ReturnCode)
unfolding http_header_append_content
parser_cb_on_header_value str s = do
  h ← s.current_header
  some (
    record s {
      current_header = some (http_header_append_content h str);
      header_state = hstate_value;
    },
    rc_zero,
  )

unfoldable pub parser_cb_on_headers_complete : ParseState → Option (ParseState × ReturnCode)
unfolding save_current
parser_cb_on_headers_complete s = do
  saved ← save_current s
  some (record saved { current_header = none }, rc_zero)

unfoldable pub parser_cb_on_body : Bytes → ParseState → Option (ParseState × ReturnCode)
unfolding http_request_append_body
parser_cb_on_body str s = do
  request ← s.current_request
  request' ← http_request_append_body request str
  some (record s { current_request = some request' }, rc_zero)

unfoldable pub parser_cb_on_message_complete : ParseState → Option (ParseState × ReturnCode)
parser_cb_on_message_complete s = some (record s { request_complete = true }, rc_zero)

-- The calls that the parser makes, in the order of `parser_get_settings`.
pub data Event : Type 0 where
  on_message_begin on_headers_complete on_message_complete : Event
  on_body on_header_field on_header_value on_status on_url : Bytes → Event

unfoldable pub callback : Parser → Event → ParseState → Option (ParseState × ReturnCode)
unfolding parser_cb_on_body parser_cb_on_header_field parser_cb_on_header_value
    parser_cb_on_headers_complete parser_cb_on_message_begin parser_cb_on_message_complete
    parser_cb_on_status parser_cb_on_url
callback p on_message_begin s = parser_cb_on_message_begin s
callback p on_headers_complete s = parser_cb_on_headers_complete s
callback p on_message_complete s = parser_cb_on_message_complete s
callback p (on_body str) s = parser_cb_on_body str s
callback p (on_header_field str) s = parser_cb_on_header_field p str s
callback p (on_header_value str) s = parser_cb_on_header_value str s
callback p (on_status str) s = parser_cb_on_status str s
callback p (on_url str) s = parser_cb_on_url p str s

-- The parser stops at the first callback that does not return 0; the flag says that none did.
pub feed : Parser → List Event → ParseState → Option (ParseState × Bool)
unfolding callback
feed p [] s = some (s, true)
feed p (e ∷ es) s = elim (callback p e s) [
  | none ↦ none
  | some (s', rc_zero) ↦ feed p es s'
  | some (s', rc_one) ↦ some (s', false)
  | some (s', rc_minus_one) ↦ some (s', false)
]
