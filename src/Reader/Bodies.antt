-- ===== src/Reader/Bodies.antt =====
-- Request bodies in src/http-reader.c.
use khttp.Common.{◌≡◌, refl, ◌≢◌, true, Option, none, some, List, [], ◌∷◌, ◌++◌, arith, Bytes}
use khttp.Http.Body.{body_none, http_body_append_str}
use khttp.Http.Request.{Request, http_request_new, http_request_append_body}
use khttp.Reader.{
  ParseState, Parser, ReturnCode, rc_zero, rc_one, rc_minus_one, Event, on_message_begin,
  on_headers_complete, on_message_complete, on_body, on_header_field, on_header_value, on_status,
  on_url, callback, feed, server_parse_status_new,
}

-- The current request, if there is one, has no body.
abbrev BodylessRequest : Option Request → Type 0
BodylessRequest none = Unit
BodylessRequest (some r) = r.body.type ≡ body_none

abbrev Bodyless : ParseState → Type 0
Bodyless s = BodylessRequest s.current_request

append_refused :
    (r : Request) (str : Bytes) → r.body.type ≡ body_none → http_request_append_body r str ≡ none
unfolding http_request_append_body http_body_append_str
append_refused r str e = ground arith

body_refused :
    (p : Parser) (str : Bytes) (s : ParseState) → Bodyless s → callback p (on_body str) s ≡ none
unfolding callback
body_refused p str s b = at s.current_request refl b
  where
    at :
        (o : Option Request)
        → s.current_request ≡ o
        → BodylessRequest o
        → callback p (on_body str) s ≡ none
    at none e b' = rw (e, callback) refl
    at (some r) e b' = rw (e, callback) (rw (append_refused r str b') refl)

callback-Bodyless :
    (p : Parser) (e : Event) (s : ParseState) {s' : ParseState} {rc : ReturnCode}
    → callback p e s ≡ some (s', rc)
    → Bodyless s
    → Bodyless s'
unfolding callback http_request_new
callback-Bodyless p on_message_begin s e b = ground arith
callback-Bodyless p on_headers_complete s e b = ground arith
callback-Bodyless p on_message_complete s e b = ground arith
callback-Bodyless p (on_body str) s e b = absurd (ground (arith, body_refused p str s b))
callback-Bodyless p (on_header_field str) s e b = ground arith
callback-Bodyless p (on_header_value str) s e b = ground arith
callback-Bodyless p (on_status str) s e b = ground arith
callback-Bodyless p (on_url str) s e b = ground arith

feed-Bodyless :
    (p : Parser) (es rest : List Event) (str : Bytes) (s : ParseState) {s' : ParseState}
    → Bodyless s
    → feed p (es ++ on_body str ∷ rest) s ≢ some (s', true)
unfolding feed
feed-Bodyless p [] rest str s b e = ground (arith, body_refused p str s b)
feed-Bodyless p (x ∷ es) rest str s {s'} b e =
    at (callback p x s) refl (λ t. feed-Bodyless p es rest str t)
  where
    at :
        (o : Option (ParseState × ReturnCode))
        → callback p x s ≡ o
        → ((t : ParseState) → Bodyless t → feed p (es ++ on_body str ∷ rest) t ≢ some (s', true))
        → ⊥
    at none gone next = ground (arith, gone)
    at (some (t, rc_one)) found next = ground (arith, found)
    at (some (t, rc_minus_one)) found next = ground (arith, found)
    at (some (t, rc_zero)) found next =
        next t (callback-Bodyless p x s found b) (ground (arith, found))

-- No request with a body gets through: from a new parse state, no sequence of calls that contains an
-- `on_body` runs to its end with every callback returning 0, since the body of a new request is
-- not the string body that `http_request_append_body` asserts.
pub body_never_read :
    (p : Parser) (es rest : List Event) (str : Bytes) (s' : ParseState)
    → feed p (es ++ on_body str ∷ rest) server_parse_status_new ≢ some (s', true)
unfolding server_parse_status_new
body_never_read p es rest str s' = feed-Bodyless p es rest str _ tt
