-- ===== src/Loop/Write/Finishing.antt =====
-- The parts of a round of the loop of src/server-loop-write.c on a socket that is ready.
use khttp.Common.{
  ℕ, ◌-◌, ◌≤◌, ◌≡◌, refl, sym, ap, ◌∙◌, ◌≢◌, ◌⊎◌, inl, inr, Bool, true, false, Option, none, some,
  List, [], ◌∷◌, ◌++◌, arith, if◌then◌else◌, Bool-cases, is_some, is_empty, List-cases, ◌>>=◌,
  length, All, length-drop, Bytes,
}
use mathlib.Core.Path.{subst}
use khttp.Http.Body.{content_of, http_body_writeto_fd}
use khttp.Http.Body.Sending.{Ready}
use khttp.Http.Body.Ready.{Spent, writeto_fd-Spent}
use khttp.Http.Response.{Response, send_response_line, send_body, send_done, http_response_write}
use khttp.Http.Response.Printed.{Printed, head_written}
use khttp.Http.ResponseList.{http_response_list_next, http_response_list_remove}
use khttp.Buffer.{DataBufferList, WriteRun, data_buffer_list_writeto_fd}
use khttp.Buffer.Append.{waiting, IsSound, room, append-waiting}
use khttp.Buffer.Ready.{Emptied, list_writeto_fd-Emptied}
use khttp.Connection.{skt_close}
use khttp.Loop.Write.{
  Sending, after_flush, flush, add_text, print_head, is_body_none, put_first, asks_close,
  finish_response, after_run, after_body, send_rest,
}
use khttp.Loop.Write.Bodies.{body_left-some}
use khttp.Loop.Write.Outstanding.{body_left}

abbrev pub flushed : Sending → WriteRun → Sending
flushed s run =
    let conn = s.conn in
    record s {
      conn = record conn { pending_writes = record { buffers = run.buffers; back = none } };
      events = run.rest;
      sent = s.sent ++ run.sent;
    }

after_flush-counted :
    (s : Sending) (run : WriteRun) (k : ℕ)
    → run.result ≡ some (some k)
    → after_flush s run ≡ flushed s run
unfolding after_flush
after_flush-counted s run k e = rw (e, after_flush) refl

pub flush-Emptied :
    (s : Sending)
    → s.conn.pending_writes.back ≡ none
    → All Ready s.events
    → length (waiting s.conn.pending_writes.buffers) ≤ length s.events
    → waiting s.conn.pending_writes.buffers ≢ []
    → (run : WriteRun) × (flush s ≡ some (flushed s run))
      × Emptied s.events (length (waiting s.conn.pending_writes.buffers)) run
unfolding flush
flush-Emptied s ends ready enough ne =
    let (run, made, all) =
      list_writeto_fd-Emptied s.events s.conn.pending_writes ends ready enough in
    let written =
      data_buffer_list_writeto_fd s.events s.conn.pending_writes
      >>= (λ r. some (after_flush s r)) in
    (
      run,
      elim (List-cases s.conn.pending_writes.buffers) [
        | inl e ↦ absurd (ne (ap waiting e))
        | inr (b, bs, e) ↦
            ap (λ l. if is_empty l then some s else written) e
            ∙ ap (λ o. o >>= (λ r. some (after_flush s r))) made
            ∙ ap some (after_flush-counted s run all.counted.0 all.counted.1)
      ],
      all,
    )

-- The response in front has gone out, and does not close the connection.
abbrev pub dropped : List Response → Sending → Sending
dropped rs s = let conn = s.conn in record s { conn = record conn { pending_responses = rs } }

finish_response-next :
    (r : Response) (rs : List Response) (s : Sending)
    → s.conn.pending_responses ≡ r ∷ rs
    → asks_close r ≡ some false
    → finish_response r s ≡ some (dropped rs s, is_some (http_response_list_next rs))
unfolding finish_response http_response_list_remove skt_close
finish_response-next r rs s e stays =
    let conn = s.conn in
    let closed : List Response → Sending × Bool = λ l. (
      record s { conn = record conn { pending_responses = l; skt = skt_close conn.skt } },
      false,
    ) in
    let kept : List Response → Sending × Bool = λ l. (
      record s { conn = record conn { pending_responses = l } },
      is_some (http_response_list_next l),
    ) in
    ap
      (λ o. o >>= (λ last.
        http_response_list_remove conn.pending_responses 0
        >>= (λ l. some (if last then closed l else kept l))))
      stays
    ∙ ap (λ l. http_response_list_remove l 0 >>= (λ l1. some (kept l1))) e

-- A response that can be sent as a whole and that does not close the connection.
pub record Sendable (date : Bytes) (r : Response) : Type 0 where
  pub fresh : r.send_status ≡ send_response_line
  pub text : Bytes
  pub printed : Response
  pub wrote : http_response_write date r ≡ some (some text, printed)
  pub stays : asks_close printed ≡ some false
  pub body :
      (is_body_none r.body.type ≡ true)
      ⊎ ((content : Bytes) × (content_of r.body.type r.body.ptr ≡ some content))

-- What a head that was written comes to.
pub record HeadOut (r : Response) (text : Bytes) (r' : Response) : Type 0 where
  pub some_text : text ≢ []
  pub next : r'.send_status ≡ send_body
  pub same : r'.body ≡ r.body

pub head_out :
    (r : Response) (text : Bytes) (r' : Response) → Printed r (some text) r' → HeadOut r text r'
head_out r text r' (head_written _ _ ne status next same) = record {
  some_text = ne;
  next = next;
  same = same;
}

abbrev pub with_head : Sending → Response → List Response → DataBufferList → Sending
with_head s r rs writes =
    let conn = s.conn in
    record s { conn = record conn { pending_responses = r ∷ rs; pending_writes = writes } }

-- The head goes to the buffers.
pub print_head-out :
    (date : Bytes) (r : Response) (rs : List Response) (s : Sending) (a : Sendable date r)
    → s.conn.pending_writes.buffers ≡ []
    → s.conn.pending_writes.back ≡ none
    → HeadOut r a.text a.printed
    → (writes : DataBufferList) × (print_head date r rs s ≡ some (with_head s a.printed rs writes))
      × (writes.back ≡ none)
      × (waiting writes.buffers ≡ a.text)
unfolding print_head
print_head-out date r rs s a empty ends out =
    let (writes, made, ends', all) =
      append-waiting s.conn.pending_writes a.text out.some_text ends
        (subst (All IsSound) (sym empty) tt) (inl (ap room empty)) in
    let next : DataBufferList → Option Sending = λ w. some (with_head s a.printed rs w) in
    (
      writes,
      ap
            (λ o.
              o
              >>= (λ p. add_text p.0 s.conn.pending_writes >>= (λ w. some (with_head s p.1 rs w))))
            a.wrote
          ∙ ap (λ o. o >>= next) made,
      ends',
      all ∙ ap (λ bs. waiting bs ++ a.text) empty,
    )

-- What a response in front leaves that has gone out as a whole.
pub record After (n : ℕ) (rs : List Response) (t t' : Sending) : Type 0 where
  pub first : t'.conn.pending_responses ≡ rs
  pub writes : t'.conn.pending_writes ≡ t.conn.pending_writes
  pub skt : t'.conn.skt ≡ t.conn.skt
  pub here : t'.waits ≡ t.waits
  pub spent : Spent t.events n t'.events

module _ (r : Response) (rs : List Response) (t : Sending) (stays : asks_close r ≡ some false)
    (ready : All Ready t.events) where
  bodyless :
      is_body_none r.body.type ≡ true
      → (t' : Sending) × (send_rest false send_body r rs t
          ≡ some (t', is_some (http_response_list_next rs)))
        × After 0 rs t t'
  unfolding send_rest asks_close
  bodyless e =
      let done = record r { send_status = send_done } in
      let sent =
        http_body_writeto_fd t.events false r.body
        >>= (λ p. after_body p.1.result (record r { body = p.0 }) rs t p.1) in
      (
        dropped rs (put_first done rs t),
        ap (λ b. if b then finish_response done (put_first done rs t) else sent) e
            ∙ finish_response-next done rs (put_first done rs t) refl stays,
        record {
          first = refl;
          writes = refl;
          skt = refl;
          here = refl;
          spent = record { ready = ready; spent = omega arith };
        },
      )

  whole_body :
      (content : Bytes)
      → is_body_none r.body.type ≡ false
      → content_of r.body.type r.body.ptr ≡ some content
      → length (body_left r.body) ≤ length t.events
      → (t' : Sending) × (send_rest false send_body r rs t
          ≡ some (t', is_some (http_response_list_next rs)))
        × After (length (body_left r.body)) rs t t'
  unfolding send_rest asks_close after_body
  whole_body content e has enough =
      let none_done = record r { send_status = send_done } in
      let size : length (body_left r.body) ≡ length content - r.body.roffset =
        ap length (body_left-some r.body content has) ∙ length-drop r.body.roffset content in
      let (body, run, made, ended, spent) =
        writeto_fd-Spent t.events r.body content has (λ k. ground (arith, ap is_body_none k, e))
          ready (omega (arith, size, enough)) in
      let done = record r { body = body; send_status = send_done } in
      let sent : Option (Sending × Bool) =
        http_body_writeto_fd t.events false r.body
        >>= (λ p. after_body p.1.result (record r { body = p.0 }) rs t p.1) in
      (
        dropped rs (after_run done rs t run),
        ap (λ b. if b then finish_response none_done (put_first none_done rs t) else sent) e
            ∙ ap (λ o. o >>= (λ p. after_body p.1.result (record r { body = p.0 }) rs t p.1)) made
            ∙ ap (λ o. after_body o (record r { body = body }) rs t run) ended
            ∙ finish_response-next done rs (after_run done rs t run) refl stays,
        record {
          first = refl;
          writes = refl;
          skt = refl;
          here = refl;
          spent = record { ready = spent.ready; spent = omega (arith, spent.spent, size) };
        },
      )

  pub body_out :
      (is_body_none r.body.type ≡ true)
        ⊎ ((content : Bytes) × (content_of r.body.type r.body.ptr ≡ some content))
      → length (body_left r.body) ≤ length t.events
      → (t' : Sending) × (send_rest false send_body r rs t
          ≡ some (t', is_some (http_response_list_next rs)))
        × After (length (body_left r.body)) rs t t'
  body_out body enough = elim (Bool-cases (is_body_none r.body.type)) [
    | inl e ↦
        let (t', ran, a) = bodyless e in
        (
          t',
          ran,
          record {
            first = a.first;
            writes = a.writes;
            skt = a.skt;
            here = a.here;
            spent = record { ready = a.spent.ready; spent = omega (arith, a.spent.spent) };
          },
        )
    | inr e ↦ elim body [
      | inl k ↦ absurd (ground (arith, e, k))
      | inr (content, has) ↦ whole_body content e has enough
    ]
  ]
