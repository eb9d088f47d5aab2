-- ===== src/Loop/Write/Examples.antt =====
-- The theorems on the model of src/server-loop-write.c at a concrete connection.
use khttp.Common.{
  suc, zero, ℕ, All, arith, ◌≤◌, length, ◌≡◌, refl, inl, inr, true, false, none, some, List, [],
  ◌∷◌, ◌++◌, length, codes, print_base,
}
use khttp.Http.Body.Sending.{Ready}
use khttp.Loop.Write.Finishing.{Sendable}
use khttp.Loop.Write.Finished.{write_locked-sends}
use khttp.Http.Body.{FdEvent, accepts, would_block, body_string, live}
use khttp.Http.Response.{Response, http11, send_body, send_response_line, http_response_line_new}
use khttp.Reader.{ParseState, hstate_none}
use khttp.Buffer.{data_buffer_list_new}
use khttp.Connection.{Connection}
use khttp.Loop.Write.{Sending, start, write_responses, write_locked}
use khttp.Loop.Write.Outstanding.{unsent, Sound, outstanding}
use khttp.Loop.Write.Rounds.{write_locked-Keeps}
use khttp.Loop.Write.Spinning.{write_responses-spins}

abbrev idle_state : ParseState
idle_state = record {
  current_request = none;
  request_complete = false;
  current_header = none;
  header_state = hstate_none;
}

abbrev conn : Connection
conn = record {
  address = 4096;
  id = 1;
  skt = record { closed = false; error = false };
  parse_state = idle_state;
  pending_requests = [];
  pending_responses = [];
  pending_writes = record { buffers = []; back = none };
}

abbrev reply : Response
reply = record {
  line = record { version = http11; code = 100; custom_message = none };
  headers = [];
  body_chunked = false;
  body = record { type = body_string; roffset = 0; ptr = live (codes "hello") };
  send_status = send_response_line;
}

abbrev replying : Connection
replying = record conn { pending_responses = reply ∷ [] }

replying-Sound : Sound (start replying (accepts 100 ∷ accepts 100 ∷ []))
replying-Sound = record { ends = refl; headed = inl refl }

abbrev after_round : Sending
after_round = record {
  conn = conn;
  events = [];
  sent = codes "HTTP/1.1 100 Continue" ++ (13 ∷ 10 ∷ 13 ∷ 10 ∷ []) ++ codes "hello";
  blocked = false;
  waits = false;
}

a_round :
    write_locked 3 [] false (start replying (accepts 100 ∷ accepts 100 ∷ []))
    ≡ some (after_round, false)
unfolding write_locked khttp.Http.Response.http_response_write khttp.Buffer.data_buffer_list_append
    print_base khttp.Http.Response.http_response_line_get_message
    khttp.Buffer.data_buffer_list_writeto_fd khttp.Http.Body.http_body_writeto_fd
    khttp.Http.Header.http_header_list_get
a_round = refl

write_locked-Keeps_example :
    after_round.sent ++ outstanding [] after_round.conn ≡ outstanding [] replying
write_locked-Keeps_example =
    write_locked-Keeps 3 [] replying (accepts 100 ∷ accepts 100 ∷ []) replying-Sound a_round refl

abbrev stuck : Sending
stuck = record {
  conn = record replying {
    skt = record { closed = false; error = true };
    pending_responses = record reply { send_status = send_body } ∷ [];
  };
  events = [];
  sent = [];
  blocked = false;
  waits = false;
}

write_responses-spins_example : write_responses 1000 [] false stuck ≡ some (stuck, true)
write_responses-spins_example =
    write_responses-spins [] false stuck (record reply { send_status = send_body }) [] refl refl
      refl refl refl 1000

-- Thirty-six answers of three bytes each.
abbrev threes : ℕ → List FdEvent
threes zero = []
threes (suc n) = accepts 3 ∷ threes n

threes-Ready : (n : ℕ) → All Ready (threes n)
threes-Ready zero = tt
threes-Ready (suc n) = (omega arith, threes-Ready n)

abbrev ready_socket : List FdEvent
ready_socket = threes 36

reply-Sendable : Sendable [] reply
unfolding khttp.Http.Response.http_response_write print_base
    khttp.Http.Response.http_response_line_get_message khttp.Loop.Write.asks_close
    khttp.Http.Header.http_header_list_get khttp.Http.Body.content_of
reply-Sendable = record {
  fresh = refl;
  text = codes "HTTP/1.1 100 Continue" ++ (13 ∷ 10 ∷ 13 ∷ 10 ∷ []);
  printed = record reply { send_status = send_body };
  wrote = refl;
  stays = refl;
  body = inr (codes "hello", refl);
}

reply_fits : length (unsent [] (reply ∷ [])) ≤ length ready_socket
unfolding khttp.Http.Response.http_response_write print_base
    khttp.Http.Response.http_response_line_get_message khttp.Http.Body.content_of
reply_fits = omega arith

write_locked-sends_example :
    (s' : Sending) × (write_locked 1 [] false (start replying ready_socket) ≡ some (s', false))
    × (s'.conn.pending_responses ≡ [])
    × (s'.conn.pending_writes.buffers ≡ [])
    × (s'.sent ≡ unsent [] (reply ∷ []))
write_locked-sends_example =
    write_locked-sends 1 [] replying ready_socket refl refl refl (reply-Sendable, tt)
      (threes-Ready 36) reply_fits (omega arith)
