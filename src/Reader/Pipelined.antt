-- ===== src/Reader/Pipelined.antt =====
-- Two requests in one buffer, as the callbacks of src/http-reader.c take them.
use khttp.Common.{Bool, true, false, Option, none, some, List, [], ◌∷◌, ◌++◌, map, Bytes}
use khttp.Http.Response.{Version}
use khttp.Http.Request.{Request}
use khttp.Reader.{
  ParseState, Parser, hstate_value, Event, on_message_begin, on_headers_complete,
  on_message_complete, on_url, ReturnCode, rc_zero, rc_one, rc_minus_one,
}
use khttp.Reader.Headers.{Fragments, whole, header_events, all_events, headed, lined}

-- A request: its target in one piece, and one header or more.
pub record Message : Type 0 where
  pub target : Bytes
  pub first : Fragments
  pub more : List Fragments

abbrev pub message_events : Message → List Event
message_events m =
    on_message_begin
    ∷ on_url m.target
    ∷ (header_events m.first
        ++ (all_events m.more ++ (on_headers_complete ∷ on_message_complete ∷ [])))

-- After the last callback of a request.
abbrev pub complete : Request → ParseState
complete request = record {
  current_request = some request;
  request_complete = true;
  current_header = none;
  header_state = hstate_value;
}

abbrev pub request_with : Parser → Version → Message → Request
request_with p v m = headed (lined p m.target v) (map whole (m.first ∷ m.more))

-- How the parser goes on after a callback.
abbrev continue :
    Option (ParseState × ReturnCode)
    → (ParseState → Option (ParseState × Bool))
    → Option (ParseState × Bool)
continue o next = elim o [
  | none ↦ none
  | some (s', rc_zero) ↦ next s'
  | some (s', rc_one) ↦ some (s', false)
  | some (s', rc_minus_one) ↦ some (s', false)
]

module _ (p : Parser) where
  begun : Request → ParseState
  begun request = record {
    current_request = some request;
    request_complete = false;
    current_header = none;
    header_state = hstate_value;
  }
