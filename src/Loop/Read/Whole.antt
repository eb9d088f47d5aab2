-- ===== src/Loop/Read/Whole.antt =====
-- A whole request from the read of its bytes in src/server-loop-read.c to its reply in
-- src/server-loop-worker.c.
use khttp.Common.{
  ◌≡◌, refl, ap, ◌∙◌, true, false, Option, none, some, List, [], ◌∷◌, ◌++◌, map, ==_iff, length,
  Bytes, codes,
}
use khttp.Connection.{Connection, Pools, pool_add, pool_write, pool_worker}
use khttp.Http.Request.{Request}
use khttp.Http.Response.{Version}
use khttp.Reader.{
  hstate_value, ParseState, on_message_begin, on_url, on_headers_complete, on_message_complete,
  feed, server_parse_status_new,
}
use khttp.Reader.Headers.{
  Fragments, whole, header_events, all_events, headed, lined, request_built, Speaks,
}
use khttp.Loop.Read.{Execution, received, ReadAnswer, Round, read_loop, after_parse}

-- What the parser does with a buffer that has just one request in it: its target in one piece, and
-- one header or more, in any fragments.
pub record OneMessage (buffer : Bytes) (x : Execution) : Type 0 where
  pub target : Bytes
  pub first : Fragments
  pub more : List Fragments
  pub version : Version
  pub speaks : Speaks x.parser version
  pub made :
      x.events
      ≡ on_message_begin
        ∷ on_url target
        ∷ (header_events first
            ++ (all_events more ++ (on_headers_complete ∷ on_message_complete ∷ [])))
  pub all_parsed : x.parsed_count ≡ length buffer
  pub plain : x.upgrade ≡ false
  pub fine : x.errno ≡ none

abbrev pub request_of : (buffer : Bytes) (x : Execution) → OneMessage buffer x → Request
request_of buffer x m = headed (lined x.parser m.target m.version) (map whole (m.first ∷ m.more))

abbrev pub passed : Connection → Pools → Request → Round
passed conn pools request = record {
  conn = record conn { pending_requests = conn.pending_requests ++ request ∷ [] };
  pools =
      pool_add (pool_add pools pool_worker (codes "REQ") conn.address) pool_write (codes "RESP")
        conn.address;
  blocked = false;
  ended = true;
}

abbrev completed : (buffer : Bytes) (x : Execution) → OneMessage buffer x → ParseState
completed buffer x m = record {
  current_request = some (request_of buffer x m);
  request_complete = true;
  current_header = none;
  header_state = hstate_value;
}

fed :
    (buffer : Bytes) (x : Execution) (m : OneMessage buffer x) (conn : Connection)
    → conn.parse_state ≡ server_parse_status_new
    → feed x.parser x.events conn.parse_state ≡ some (completed buffer x m, true)
fed buffer x m conn idle =
    ap (λ s. feed x.parser x.events s) idle
    ∙ ap (λ es. feed x.parser es server_parse_status_new) m.made
    ∙ request_built x.parser m.target m.first m.more m.version m.speaks

after_parse-whole :
    (page : Option Bytes) (buffer : Bytes) (x : Execution) (m : OneMessage buffer x)
    (conn : Connection) (pools : Pools)
    → after_parse page (length buffer) x (record conn { parse_state = completed buffer x m }) pools
      ≡ some (
        record conn {
          pending_requests = conn.pending_requests ++ request_of buffer x m ∷ [];
          parse_state = server_parse_status_new;
        },
        pool_add pools pool_worker (codes "REQ") conn.address,
        false,
      )
unfolding after_parse server_parse_status_new
after_parse-whole page buffer x m conn pools =
    rw (m.plain, after_parse)
      (rw (m.all_parsed, after_parse)
        (rw ((==_iff (length buffer) (length buffer)).1 refl, after_parse)
          (rw (m.fine, after_parse) refl)))

-- A connection with no request under way that receives one whole request passes it on to the workers
-- behind those that were pending, with an item for the workers and one for the writers,
-- and is ready for the next request.
pub read_loop-whole :
    (page : Option Bytes) (buffer : Bytes) (x : Execution) (m : OneMessage buffer x)
    (later : List ReadAnswer) (conn : Connection) (pools : Pools)
    → conn.parse_state ≡ server_parse_status_new
    → read_loop page (received buffer x ∷ later) conn pools
      ≡ some (passed conn pools (request_of buffer x m))
unfolding read_loop after_parse
read_loop-whole page buffer x m later conn pools idle =
    rw (fed buffer x m conn idle, read_loop)
      (rw (after_parse-whole page buffer x m conn pools, read_loop) (rw (← idle) refl))
