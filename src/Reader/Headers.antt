-- ===== src/Reader/Headers.antt =====
-- The header callbacks of src/http-reader.c put a request together from fragments.
use khttp.Common.{
  concat, ◌≡◌, refl, ap, ◌∙◌, ◌≢◌, ◌⊎◌, inl, inr, true, false, Option, none, some, List, [], ◌∷◌,
  ◌++◌, map, append-nil, append_assoc, arith, Bytes,
}
use khttp.Http.Method.{Method, other, http_method_fromstring, fromstring-ne-other}
use khttp.Http.Header.{Header}
use khttp.Http.Response.{Version, http10, http11, httpxx}
use khttp.Http.Request.{Request, RequestLine, http_request_new, http_request_line_new}
use khttp.Reader.{
  ParseState, Parser, HeaderState, hstate_value, hstate_field, Event, on_message_begin,
  on_headers_complete, on_message_complete, on_header_field, on_header_value, on_url, feed, rc_zero,
  server_parse_status_new, callback,
}

-- A header as it arrives: the first fragment and the later ones of its name and of its value.
pub record Fragments : Type 0 where
  pub name : Bytes
  pub more_name : List Bytes
  pub value : Bytes
  pub more_value : List Bytes

abbrev pub whole : Fragments → Header
whole f = record {
  name = f.name ++ concat f.more_name;
  content = some (f.value ++ concat f.more_value);
}

abbrev pub header_events : Fragments → List Event
header_events f =
    (on_header_field f.name ∷ map on_header_field f.more_name)
    ++ (on_header_value f.value ∷ map on_header_value f.more_value)

abbrev pub all_events : List Fragments → List Event
all_events [] = []
all_events (f ∷ fs) = header_events f ++ all_events fs

abbrev pub headed : Request → List Header → Request
headed request hs = record request { headers = hs }

-- A state in the middle of the headers.
abbrev pub reading : Request → Header → HeaderState → ParseState
reading request h state = record {
  current_request = some request;
  request_complete = false;
  current_header = some h;
  header_state = state;
}

module _ (p : Parser) where
  feed-fields :
      (frags : List Bytes) (rest : List Event) (request : Request) (name : Bytes)
      (content : Option Bytes)
      → feed p
          (map on_header_field frags ++ rest)
          (reading request (record { name = name; content = content }) hstate_field)
        ≡ feed p rest (
            reading request
              (record { name = name ++ concat frags; content = content })
              hstate_field)
  unfolding feed
  feed-fields [] rest request name content = rw append-nil refl
  feed-fields (s ∷ frags) rest request name content =
      feed-fields frags rest request (name ++ s) content
      ∙ rw (append_assoc name s (concat frags)) refl

  feed-values :
      (frags : List Bytes) (rest : List Event) (request : Request) (name value : Bytes)
      → feed p
          (map on_header_value frags ++ rest)
          (reading request (record { name = name; content = some value }) hstate_value)
        ≡ feed p rest (
            reading request
              (record { name = name; content = some (value ++ concat frags) })
              hstate_value)
  unfolding feed
  feed-values [] rest request name value = rw append-nil refl
  feed-values (s ∷ frags) rest request name value =
      feed-values frags rest request name (value ++ s)
      ∙ rw (append_assoc value s (concat frags)) refl

  -- From the first fragment of a header's name on.
  pub feed-started :
      (f : Fragments) (rest : List Event) (request : Request)
      → feed p
          (map on_header_field f.more_name
            ++ ((on_header_value f.value ∷ map on_header_value f.more_value) ++ rest))
          (reading request (record { name = f.name; content = none }) hstate_field)
        ≡ feed p rest (reading request (whole f) hstate_value)
  unfolding feed
  feed-started f rest request =
      feed-fields f.more_name _ request f.name none
      ∙ feed-values f.more_value rest request (f.name ++ concat f.more_name) f.value

  feed-next :
      (f : Fragments) (rest : List Event) (request : Request) (h : Header)
      → feed p (header_events f ++ rest) (reading request h hstate_value)
        ≡ feed p rest (
            reading (record request { headers = request.headers ++ h ∷ [] }) (whole f) hstate_value)
  unfolding feed
  feed-next f rest request h =
      rw (append_assoc (map on_header_field f.more_name) _ rest)
        (feed-started f rest (record request { headers = request.headers ++ h ∷ [] }))

  pub feed-all :
      (fs : List Fragments) (request : Request) (h : Header) (line : RequestLine)
      → request.req ≡ some line
      → feed p
          (all_events fs ++ (on_headers_complete ∷ on_message_complete ∷ []))
          (reading request h hstate_value)
        ≡ some (
          record {
            current_request =
                some (record request { headers = request.headers ++ (h ∷ map whole fs) });
            request_complete = true;
            current_header = none;
            header_state = hstate_value;
          },
          true,
        )
  unfolding feed
  feed-all [] request h line e = refl
  feed-all (f ∷ fs) request h line e = rw (append_assoc (header_events f) (all_events fs) _) (
      feed-next f (all_events fs ++ (on_headers_complete ∷ on_message_complete ∷ [])) request h
      ∙ feed-all fs (record request { headers = request.headers ++ h ∷ [] }) (whole f) line e
      ∙ rw (append_assoc request.headers (h ∷ []) (whole f ∷ map whole fs)) refl)

-- The versions that the server speaks.
abbrev pub Speaks : Parser → Version → Type 0
Speaks p v =
    (p.http_major ≡ 1) × (((p.http_minor ≡ 0) × (v ≡ http10)) ⊎ ((p.http_minor ≡ 1) × (v ≡ http11)))

pub line_new :
    (name : Bytes)
    → http_request_line_new (http_method_fromstring name) none
      ≡ some (record {
        method = http_method_fromstring name;
        method_other = none;
        uri = none;
        version = httpxx;
      })
unfolding http_request_line_new
line_new name = at (http_method_fromstring name) (fromstring-ne-other name)
  where
    at :
        (m : Method)
        → m ≢ other
        → http_request_line_new m none
          ≡ some (record { method = m; method_other = none; uri = none; version = httpxx })
    at m ne = ground arith

module _ (p : Parser) where
  pub feed_step :
      (e : Event) (es : List Event) (s s' : ParseState)
      → callback p e s ≡ some (s', rc_zero)
      → feed p (e ∷ es) s ≡ feed p es s'
  unfolding feed
  feed_step e es s s' h = rw (h, feed) refl

  -- The request after its request line.
  abbrev pub lined : Bytes → Version → Request
  lined u v =
      let fresh = http_request_new in
      record fresh {
        req = some (record {
          method = http_method_fromstring p.method;
          method_other = none;
          uri = some u;
          version = v;
        });
      }

  abbrev unread : Request → ParseState
  unread request =
      let fresh = server_parse_status_new in record fresh { current_request = some request }

  url_step :
      (u : Bytes)
      → callback p (on_url u) (unread http_request_new) ≡ some (unread (lined u httpxx), rc_zero)
  unfolding callback
  url_step u = rw (line_new p.method) refl

  field_step :
      (u name : Bytes) (v : Version)
      → Speaks p v
      → callback p (on_header_field name) (unread (lined u httpxx))
        ≡ some (reading (lined u v) (record { name = name; content = none }) hstate_field, rc_zero)
  unfolding callback server_parse_status_new
  field_step u name v (major, inl (minor, e)) = rw (major, minor, e) refl
  field_step u name v (major, inr (minor, e)) = rw (major, minor, e) refl

  begin_step :
      callback p on_message_begin server_parse_status_new ≡ some (unread http_request_new, rc_zero)
  unfolding callback server_parse_status_new
  begin_step = refl

  -- Fed with the start of a message, the request target in one piece, one header or more, each
  -- name and value in any fragments, and the ends of headers and message, for a version that the
  -- server speaks: the callbacks all return 0 and leave a complete request with the parser's
  -- method, the target, the version, and the headers in order, each with the fragments of its name
  -- and of its value joined.
  pub request_built :
      (u : Bytes) (f : Fragments) (fs : List Fragments) (v : Version)
      → Speaks p v
      → feed p
          (on_message_begin
            ∷ on_url u
            ∷ (header_events f
                ++ (all_events fs ++ (on_headers_complete ∷ on_message_complete ∷ []))))
          server_parse_status_new
        ≡ some (
          record {
            current_request = some (headed (lined u v) (map whole (f ∷ fs)));
            request_complete = true;
            current_header = none;
            header_state = hstate_value;
          },
          true,
        )
  unfolding http_request_new
  request_built u f fs v speaks =
      let ends = on_headers_complete ∷ on_message_complete ∷ [] in
      let later = all_events fs ++ ends in
      feed_step on_message_begin _ _ _ begin_step
      ∙ feed_step (on_url u) _ _ _ (url_step u)
      ∙ ap (λ es. feed p (on_header_field f.name ∷ es) (unread (lined u httpxx)))
          (append_assoc (map on_header_field f.more_name) _ later)
      ∙ feed_step (on_header_field f.name) _ _ _ (field_step u f.name v speaks)
      ∙ feed-started p f later (lined u v)
      ∙ feed-all p fs (lined u v) (whole f) _ refl
