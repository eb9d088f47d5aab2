-- ===== src/Loop/Write.antt =====
-- The loop of src/server-loop-write.c: what a writer thread does with one item of its queue. `none`
-- is a fault. `date` is the time as `http_response_write` prints it, which does not change during a
-- round; `broken` says that the reads of a body's file fail.
pub mod Outstanding
pub mod Heads
pub mod Flush
pub mod Bodies
pub mod Responses
pub mod Rounds
pub mod Spinning
pub mod Finishing
pub mod Finished
pub mod Examples
use khttp.Common.{
  is_some, is_empty, ℕ, zero, suc, Bool, true, false, not, ◌&&◌, ◌||◌, Option, none, some, List, [],
  ◌∷◌, ◌++◌, if◌then◌else◌, ◌>>=◌, Bytes, codes, str_case_eq,
}
use khttp.Http.Header.{http_header_list_get}
use khttp.Http.Body.{
  WriteResult, Body, BodyType, body_none, hbwrite_done, hbwrite_more, hbwrite_blocked,
  hbwrite_error, FdEvent, FdRun, http_body_writeto_fd,
}
use khttp.Http.Response.{
  Response, SendStatus, send_response_line, send_headers, send_body, send_done, header_connection,
  http_response_write,
}
use khttp.Http.ResponseList.{http_response_list_next, http_response_list_remove}
use khttp.Buffer.{DataBufferList, WriteRun, data_buffer_list_append, data_buffer_list_writeto_fd}
use khttp.Connection.{Connection, skt_close}

-- A round under way: the connection, the answers of write(2) that are left, what went out, the
-- item's `blocked`, and whether the round waits for an answer that is not there.
pub record Sending : Type 0 where
  pub conn : Connection
  pub events : List FdEvent
  pub sent : Bytes
  pub blocked : Bool
  pub waits : Bool

unfoldable pub set_error : Connection → Connection
set_error conn = let skt = conn.skt in record conn { skt = record skt { error = true } }

-- What a call of `data_buffer_list_writeto_fd` leaves: -1 is EAGAIN or an error of the socket.
unfoldable pub after_flush : Sending → WriteRun → Sending
unfolding set_error
after_flush s run =
    let conn = s.conn in
    let conn' = record conn { pending_writes = record { buffers = run.buffers; back = none } } in
    let s' = record s { conn = conn'; events = run.rest; sent = s.sent ++ run.sent } in
    elim run.result [
      | none ↦ record s' { waits = true }
      | some none ↦
          if run.blocked then record s' { blocked = true } else record s' { conn = set_error conn' }
      | some (some n) ↦ s'
    ]

-- The buffers are written if there are any.
unfoldable pub flush : Sending → Option Sending
unfolding after_flush
flush s = if is_empty s.conn.pending_writes.buffers then some s else (do
  run ← data_buffer_list_writeto_fd s.events s.conn.pending_writes
  some (after_flush s run))

abbrev pub add_text : Option Bytes → DataBufferList → Option DataBufferList
add_text none writes = some writes
add_text (some text) writes = data_buffer_list_append writes text

-- The part of a response that `http_response_write` prints goes to the buffers.
unfoldable pub print_head : Bytes → Response → List Response → Sending → Option Sending
print_head date r rs s = do
  (text, r') ← http_response_write date r
  let conn = s.conn
  writes ← add_text text conn.pending_writes
  some (record s { conn = record conn { pending_responses = r' ∷ rs; pending_writes = writes } })

abbrev pub is_body_none : BodyType → Bool
is_body_none body_none = true
is_body_none _ = false

-- The response in front becomes `r`.
abbrev pub put_first : Response → List Response → Sending → Sending
put_first r rs s =
    let conn = s.conn in record s { conn = record conn { pending_responses = r ∷ rs } }

-- The `Connection: close` of a response; its content must not be NULL.
unfoldable pub asks_close : Response → Option Bool
asks_close r = elim (http_header_list_get r.headers (some header_connection)) [
  | none ↦ some false
  | some h ↦ elim h.content [ none ↦ none | some c ↦ some (str_case_eq c (codes "close")) ]
]

-- The response in front is done with. The flag says whether `response` is not NULL afterwards.
unfoldable pub finish_response : Response → Sending → Option (Sending × Bool)
unfolding asks_close skt_close http_response_list_remove http_response_list_next
finish_response r s = do
  last ← asks_close r
  let conn = s.conn
  rest ← http_response_list_remove conn.pending_responses 0
  let conn' = record conn { pending_responses = rest }
  some (
      if last
      then (record s { conn = record conn' { skt = skt_close conn.skt } }, false)
      else (record s { conn = conn' }, is_some (http_response_list_next rest)))

abbrev pub after_run : Response → List Response → Sending → FdRun → Sending
after_run r rs s run = put_first r rs (record s { events = run.rest; sent = s.sent ++ run.sent })

-- What a call of `http_body_writeto_fd` with this result leaves; `r` has the body that it leaves.
unfoldable pub after_body :
    Option WriteResult → Response → List Response → Sending → FdRun → Option (Sending × Bool)
unfolding finish_response set_error
after_body none r rs s run = some (record (after_run r rs s run) { waits = true }, true)
after_body (some hbwrite_done) r rs s run =
    let done = record r { send_status = send_done } in
    finish_response done (after_run done rs s run)
after_body (some hbwrite_error) r rs s run =
    let done = record r { send_status = send_done } in
    let failed = after_run done rs s run in
    finish_response done (record failed { conn = set_error failed.conn })
after_body (some hbwrite_blocked) r rs s run = some (after_run r rs s run, false)
after_body (some hbwrite_more) r rs s run = some (after_run r rs s run, false)

unfoldable pub send_rest :
    Bool → SendStatus → Response → List Response → Sending → Option (Sending × Bool)
unfolding after_body finish_response
send_rest broken send_body r rs s =
    let done = record r { send_status = send_done } in
    if is_body_none r.body.type then finish_response done (put_first done rs s) else (do
      (body, run) ← http_body_writeto_fd s.events broken r.body
      after_body run.result (record r { body = body }) rs s run)
send_rest broken send_done r rs s = finish_response r s
send_rest broken send_response_line r rs s = some (s, true)
send_rest broken send_headers r rs s = some (s, true)

unfoldable pub send_first : Bool → List Response → Sending → Option (Sending × Bool)
unfolding send_rest
send_first broken [] s = none
send_first broken (r ∷ rs) s = send_rest broken r.send_status r rs s

-- The body is only written when the head has gone out and the socket is fine.
unfoldable pub send_response : Bool → Sending → Option (Sending × Bool)
unfolding send_first
send_response broken s =
    if s.waits || (s.conn.skt.error || not (is_empty s.conn.pending_writes.buffers))
    then some (s, true)
    else send_first broken s.conn.pending_responses s

-- One round of `while (response != NULL)`, with the response in front.
unfoldable pub write_first : Bytes → Bool → List Response → Sending → Option (Sending × Bool)
unfolding print_head flush send_response
write_first date broken [] s = none
write_first date broken (r ∷ rs) s = do
  printed ← print_head date r rs s
  flushed ← flush printed
  send_response broken flushed

unfoldable pub write_response : Bytes → Bool → Sending → Option (Sending × Bool)
unfolding write_first
write_response date broken s = write_first date broken s.conn.pending_responses s

-- The loop; the flag says that it has not ended, since the fuel or the answers ran out.
unfoldable pub write_responses : ℕ → Bytes → Bool → Sending → Option (Sending × Bool)
unfolding write_response
write_responses zero date broken s = some (s, true)
write_responses (suc fuel) date broken s = do
  (s', more) ← write_response date broken s
  let rest = write_responses fuel date broken s'
  (if more && not s'.waits then rest else some (s', more))

-- The responses are only turned to when no buffer is left.
unfoldable pub write_pending : ℕ → Bytes → Bool → Sending → Option (Sending × Bool)
unfolding write_responses http_response_list_next
write_pending fuel date broken s =
    let written = write_responses fuel date broken s in
    if s.waits || not (is_empty s.conn.pending_writes.buffers)
    then some (s, s.waits)
    else if is_some (http_response_list_next s.conn.pending_responses)
    then written
    else some (s, false)

-- What the loop does while it holds the connection's lock.
unfoldable pub write_locked : ℕ → Bytes → Bool → Sending → Option (Sending × Bool)
unfolding flush write_pending
write_locked fuel date broken s = do flushed ← flush s; write_pending fuel date broken flushed

abbrev pub start : Connection → List FdEvent → Sending
start conn events = record {
  conn = conn;
  events = events;
  sent = [];
  blocked = false;
  waits = false;
}
