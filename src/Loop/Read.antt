-- ===== src/Loop/Read.antt =====
-- The loop of src/server-loop-read.c: what a reader thread does with one item of its queue. `none` is
-- a fault. What read(2) answers comes with what the vendored parser makes of the bytes.
pub mod Once
pub mod Whole
use khttp.Common.{
  is_some, ℕ, Bool, true, false, not, ◌||◌, Option, none, some, List, [], ◌∷◌, ◌++◌, ◌==◌,
  if◌then◌else◌, ◌>>=◌, length, Bytes, codes,
}
use khttp.Http.Header.{http_header_new, http_header_list_add}
use khttp.Http.Response.{
  Version, http11, header_connection, http_response_new, http_response_line_new,
}
use khttp.Http.ResponseList.{http_response_list_append}
use khttp.Http.Builtin.{http_response_create_builtin}
use khttp.Reader.{ParseState, Parser, Event, feed, server_parser_status_reset}
use khttp.Connection.{Connection, Pools, pool_write, pool_worker, conn_enqueue}

-- A call of `http_parser_execute`: the callbacks that it makes and what they read of the parser, its
-- result, and the fields `upgrade` and `http_errno` afterwards, the last with its description unless
-- it is HPE_OK.
pub record Execution : Type 0 where
  pub parser : Parser
  pub events : List Event
  pub parsed_count : ℕ
  pub upgrade : Bool
  pub errno : Option Bytes

-- The bytes of a `received` answer are at least one. EBADF only changes what is logged.
pub data ReadAnswer : Type 0 where
  received : Bytes → Execution → ReadAnswer
  end_of_file read_blocked read_fails : ReadAnswer

-- A connection and the queues as a round leaves them, whether the item is blocked, and whether the
-- loop ended (it did not if it still waits for an answer).
pub record Round : Type 0 where
  pub conn : Connection
  pub pools : Pools
  pub blocked : Bool
  pub ended : Bool

-- A built-in response that closes the connection, behind the pending ones.
unfoldable pub refuse_message : Option Bytes → ℕ → Bytes → Connection → Option Connection
unfolding http_response_list_append
refuse_message page code message conn = do
  resp ← http_response_create_builtin page code (some message)
  hs ←
      http_header_list_add resp.headers (http_header_new header_connection (some (codes "Close")))
        false
  some (record conn {
    pending_responses =
        http_response_list_append conn.pending_responses (record resp { headers = hs });
  })

abbrev is_http11 : Version → Bool
is_http11 http11 = true
is_http11 _ = false

-- The request that is being read has a request line that says HTTP/1.1.
unfoldable pub reads_http11 : ParseState → Bool
reads_http11 s = elim s.current_request [
  | none ↦ false
  | some request ↦ elim request.req [ none ↦ false | some line ↦ is_http11 line.version ]
]

-- A complete request goes to the workers; LL_APPEND of NULL is a fault.
unfoldable pub pass_request : Connection → Pools → Option (Connection × Pools)
unfolding server_parser_status_reset conn_enqueue
pass_request conn pools = do
  let s = conn.parse_state
  request ← s.current_request
  some (
    record conn {
      pending_requests = conn.pending_requests ++ request ∷ [];
      parse_state = server_parser_status_reset conn.parse_state;
    },
    conn_enqueue conn pool_worker (codes "REQ") pools,
  )

unfoldable pub send_continue : Connection → Pools → Connection × Pools
unfolding http_response_list_append conn_enqueue
send_continue conn pools = (
  record conn {
    pending_responses =
        http_response_list_append conn.pending_responses
          (http_response_new (http_response_line_new 100));
  },
  conn_enqueue conn pool_write (codes "RESP") pools,
)

-- The chain of tests after the parser has run; the flag is `error`.
unfoldable pub after_parse :
    Option Bytes → ℕ → Execution → Connection → Pools → Option (Connection × Pools × Bool)
unfolding refuse_message reads_http11 pass_request send_continue
after_parse page count x conn pools =
    if x.upgrade
    then (do
      conn' ← refuse_message page 501 (codes "Protocol upgrade is not supported") conn
      some (conn', pools, true))
    else if not (x.parsed_count == count) || is_some x.errno
    then (do
      conn' ← refuse_message page 400 (elim x.errno [ none ↦ codes "success" | some e ↦ e ]) conn
      some (conn', pools, true))
    else if conn.parse_state.request_complete
    then (do (conn', pools') ← pass_request conn pools; some (conn', pools', false))
    else if reads_http11 conn.parse_state
    then (let (conn', pools') = send_continue conn pools in some (conn', pools', false))
    else some (conn, pools, false)

-- `if (error = true)` assigns, so that the last test always holds.
unfoldable pub read_loop : Option Bytes → List ReadAnswer → Connection → Pools → Option Round
unfolding after_parse conn_enqueue
read_loop page [] conn pools =
    some (record { conn = conn; pools = pools; blocked = false; ended = false })
read_loop page (read_blocked ∷ later) conn pools =
    some (record { conn = conn; pools = pools; blocked = true; ended = true })
read_loop page (read_fails ∷ later) conn pools =
    let skt = conn.skt in
    some (record {
      conn = record conn { skt = record skt { error = true } };
      pools = pools;
      blocked = false;
      ended = true;
    })
read_loop page (end_of_file ∷ later) conn pools =
    some (record { conn = conn; pools = pools; blocked = false; ended = true })
read_loop page (received buffer x ∷ later) conn pools = do
  (s, _) ← feed x.parser x.events conn.parse_state
  (conn', pools', _) ← after_parse page (length buffer) x (record conn { parse_state = s }) pools
  let error = true
  (if error
      then some (record {
        conn = conn';
        pools = conn_enqueue conn' pool_write (codes "RESP") pools';
        blocked = false;
        ended = true;
      })
      else read_loop page later conn' pools')
