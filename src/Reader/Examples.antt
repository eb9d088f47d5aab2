-- ===== src/Reader/Examples.antt =====
-- The theorems on the models of src/http-reader.c at a concrete parser and message.
use khttp.Common.{◌≡◌, refl, ◌≢◌, inr, true, none, some, [], ◌∷◌, ◌++◌, map, codes}
use khttp.Http.Response.{http11}
use khttp.Reader.{
  Parser, hstate_value, on_message_begin, on_url, on_body, on_headers_complete, on_message_complete,
  feed, server_parse_status_new,
}
use khttp.Reader.Headers.{Fragments, whole, header_events, all_events, headed, lined, request_built}
use khttp.Reader.Pipelined.{Message}
use khttp.Reader.Bodies.{body_never_read}

abbrev a_parser : Parser
a_parser = record { method = codes "GET"; http_major = 1; http_minor = 1 }

abbrev host_fragments : Fragments
host_fragments = record {
  name = codes "Ho";
  more_name = codes "st" ∷ [];
  value = codes "local";
  more_value = codes "host" ∷ [];
}

request_built_example :
    feed a_parser
      (on_message_begin
        ∷ on_url (codes "/")
        ∷ (header_events host_fragments
            ++ (all_events (host_fragments ∷ [])
                ++ (on_headers_complete ∷ on_message_complete ∷ []))))
      server_parse_status_new
    ≡ some (
      record {
        current_request = some (
            headed
              (lined a_parser (codes "/") http11)
              (map whole (host_fragments ∷ host_fragments ∷ [])));
        request_complete = true;
        current_header = none;
        header_state = hstate_value;
      },
      true,
    )
request_built_example =
    request_built a_parser (codes "/") host_fragments (host_fragments ∷ []) http11
      (refl, inr (refl, refl))

body_never_read_example :
    feed a_parser ((on_message_begin ∷ []) ++ on_body (codes "a=1") ∷ []) server_parse_status_new
    ≢ some (server_parse_status_new, true)
body_never_read_example =
    body_never_read a_parser (on_message_begin ∷ []) [] (codes "a=1") server_parse_status_new

abbrev a_message : Message
a_message = record { target = codes "/"; first = host_fragments; more = [] }
