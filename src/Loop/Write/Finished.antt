-- ===== src/Loop/Write/Finished.antt =====
-- The loop of src/server-loop-write.c on a socket that is ready.
use khttp.Common.{
  ℕ, zero, suc, ◌+◌, ◌≤◌, ◌≡◌, refl, sym, ap, ◌∙◌, ◌⊎◌, inl, Bool, true, false, not, ◌&&◌, ◌||◌,
  Option, none, some, List, [], ◌∷◌, ◌++◌, append-nil, arith, if◌then◌else◌, is_some, is_empty,
  ◌>>=◌, length, All, length-append, Bytes,
}
use mathlib.Core.Path.{subst}
use khttp.Http.Body.{Body, FdEvent, content_of}
use khttp.Http.Body.Sending.{Ready}
use khttp.Http.Response.{Response, send_body}
use khttp.Http.Response.Printed.{http_response_write-Printed}
use khttp.Http.ResponseList.{http_response_list_next}
use khttp.Buffer.{DataBuffer, data_buffer_list_writeto_fd}
use khttp.Connection.{Connection}
use khttp.Loop.Write.{
  Sending, start, after_flush, flush, is_body_none, send_rest, send_first, send_response,
  write_first, write_response, write_responses, write_pending, write_locked,
}
use khttp.Loop.Write.Rounds.{write_locked-Keeps}
use khttp.Loop.Write.Finishing.{
  flushed, with_head, flush-Emptied, head_out, print_head-out, Sendable, body_out,
}
use khttp.Loop.Write.Outstanding.{
  outstanding, outstanding_parts, body_left, printed_text, unsent, unsent_from,
}

-- The socket is ready, nothing waits, and the responses are `rs`.
record Going (date : Bytes) (rs : List Response) (s : Sending) : Type 0 where
  first : s.conn.pending_responses ≡ rs
  empty : s.conn.pending_writes.buffers ≡ []
  ends : s.conn.pending_writes.back ≡ none
  fine : s.conn.skt.error ≡ false
  here : s.waits ≡ false
  ready : All Ready s.events
  enough : length (unsent date rs) ≤ length s.events

size_of :
    (date : Bytes) (r : Response) (rs : List Response) (a : Sendable date r)
    → length (unsent date (r ∷ rs))
      ≡ length a.text + (length (body_left r.body) + length (unsent date rs))
size_of date r rs a =
    let front : unsent_from r.send_status date r ≡ a.text ++ body_left r.body =
      ap (λ st. unsent_from st date r) a.fresh
      ∙ ap (λ o. printed_text o ++ body_left r.body) a.wrote in
    omega (
      arith,
      length-append (unsent_from r.send_status date r) (unsent date rs),
      ap length front,
      length-append a.text (body_left r.body),
    )

send_response-first :
    (s : Sending) (r : Response) (rs : List Response)
    → s.conn.pending_responses ≡ r ∷ rs
    → s.conn.pending_writes.buffers ≡ []
    → s.conn.skt.error ≡ false
    → s.waits ≡ false
    → r.send_status ≡ send_body
    → send_response false s ≡ send_rest false send_body r rs s
unfolding send_response send_first
send_response-first s r rs e empty fine here status =
    let stop : (s.waits || (s.conn.skt.error || not (is_empty s.conn.pending_writes.buffers)))
        ≡ false =
      ap (λ w. w || (s.conn.skt.error || not (is_empty s.conn.pending_writes.buffers))) here
      ∙ ap (λ b. b || not (is_empty s.conn.pending_writes.buffers)) fine
      ∙ ap (λ (bs : List DataBuffer). not (is_empty bs)) empty in
    ap (λ b. if b then some (s, true) else send_first false s.conn.pending_responses s) stop
    ∙ ap (λ l. send_first false l s) e
    ∙ ap (λ st. send_rest false st r rs s) status

-- One round of the loop sends the response in front as a whole.
write_response-Going :
    (date : Bytes) (r : Response) (rs : List Response) (s : Sending)
    → Sendable date r
    → Going date (r ∷ rs) s
    → (s' : Sending) × (write_response date false s
        ≡ some (s', is_some (http_response_list_next rs)))
      × Going date rs s'
unfolding write_response write_first
write_response-Going date r rs s a g =
    let out = head_out r a.text a.printed (http_response_write-Printed date r a.wrote) in
    let size = size_of date r rs a in
    let (writes, ran1, ends1, all1) = print_head-out date r rs s a g.empty g.ends out in
    let s1 = with_head s a.printed rs writes in
    let (run, ran2, sent) =
      flush-Emptied s1 ends1 g.ready (omega (arith, ap length all1, size, g.enough))
        (λ k. out.some_text (sym all1 ∙ k)) in
    let s2 = flushed s1 run in
    let left : length (body_left a.printed.body) ≡ length (body_left r.body) =
      ap (λ b. length (body_left b)) out.same in
    let room : length (body_left r.body) + length (unsent date rs) ≤ length run.rest =
      omega (arith, sent.spent, size, g.enough, ap length all1) in
    let body : (is_body_none a.printed.body.type ≡ true)
        ⊎ ((content : Bytes) × (content_of a.printed.body.type a.printed.body.ptr ≡ some content)) =
      subst
        (λ (b : Body).
          (is_body_none b.type ≡ true)
          ⊎ ((content : Bytes) × (content_of b.type b.ptr ≡ some content)))
        (sym out.same) a.body in
    let (s3, ran3, after) =
      body_out a.printed rs s2 a.stays sent.ready body (omega (arith, left, room)) in
    (
      s3,
      ap (λ l. write_first date false l s) g.first
          ∙ ap (λ o. o >>= (λ p. flush p >>= (λ f. send_response false f))) ran1
          ∙ ap (λ o. o >>= (λ f. send_response false f)) ran2
          ∙ send_response-first s2 a.printed rs refl sent.empty g.fine g.here out.next
          ∙ ran3,
      record {
        first = after.first;
        empty = ap (λ w. w.buffers) after.writes ∙ sent.empty;
        ends = ap (λ w. w.back) after.writes;
        fine = ap (λ k. k.error) after.skt ∙ g.fine;
        here = after.here ∙ g.here;
        ready = after.spent.ready;
        enough = omega (arith, after.spent.spent, left, room);
      },
    )

write_responses-Going :
    (fuel : ℕ) (date : Bytes) (r : Response) (rs : List Response) (s : Sending)
    → length (r ∷ rs) ≤ fuel
    → All (Sendable date) (r ∷ rs)
    → Going date (r ∷ rs) s
    → (s' : Sending) × (write_responses fuel date false s ≡ some (s', false)) × Going date [] s'
unfolding write_responses
write_responses-Going zero date r rs s h all g = absurd (omega arith)
write_responses-Going (suc fuel) date r [] s h all g =
    let (s1, ran, g1) = write_response-Going date r [] s all.0 g in
    let rest : Sending → Option (Sending × Bool) = write_responses fuel date false in
    (s1, ap (λ o. o >>= (λ p. if p.1 && not (p.0).waits then rest p.0 else some p)) ran, g1)
write_responses-Going (suc fuel) date r (r2 ∷ rs) s h all g =
    let (s1, ran, g1) = write_response-Going date r (r2 ∷ rs) s all.0 g in
    let (s2, ran2, g2) = write_responses-Going fuel date r2 rs s1 (omega arith) all.1 g1 in
    let rest : Sending → Option (Sending × Bool) = write_responses fuel date false in
    (
      s2,
      ap (λ o. o >>= (λ p. if p.1 && not (p.0).waits then rest p.0 else some p)) ran
          ∙ ap (λ w. if not w then rest s1 else some (s1, true)) g1.here
          ∙ ran2,
      g2,
    )

write_pending-Going :
    (fuel : ℕ) (date : Bytes) (rs : List Response) (s : Sending)
    → length rs ≤ fuel
    → All (Sendable date) rs
    → Going date rs s
    → (s' : Sending) × (write_pending fuel date false s ≡ some (s', false)) × Going date [] s'
unfolding write_pending http_response_list_next
write_pending-Going fuel date rs s h all g =
    let written = write_responses fuel date false s in
    let stop : (s.waits || not (is_empty s.conn.pending_writes.buffers)) ≡ false =
      ap (λ w. w || not (is_empty s.conn.pending_writes.buffers)) g.here
      ∙ ap (λ (bs : List DataBuffer). not (is_empty bs)) g.empty in
    let turn : write_pending fuel date false s
        ≡ (if is_some (http_response_list_next rs) then written else some (s, false)) =
      ap
        (λ b.
          if b
          then some (s, s.waits)
          else if is_some (http_response_list_next s.conn.pending_responses)
          then written
          else some (s, false))
        stop
      ∙ ap (λ l. if is_some (http_response_list_next l) then written else some (s, false))
          g.first in
    at rs h all g turn
  where
    at :
        (l : List Response)
        → length l ≤ fuel
        → All (Sendable date) l
        → Going date l s
        → write_pending fuel date false s ≡ (
            if is_some (http_response_list_next l)
            then write_responses fuel date false s
            else some (s, false))
        → (s' : Sending) × (write_pending fuel date false s ≡ some (s', false)) × Going date [] s'
    at [] h all g turn = (s, turn, g)
    at (r ∷ l) h all g turn =
        let (s1, ran, g1) = write_responses-Going fuel date r l s h all g in (s1, turn ∙ ran, g1)

-- On a connection with no buffer waiting and no error, whose pending responses can each be sent as a
-- whole and do not close the connection, a round of the write loop ends and has sent every response, in
-- order, and nothing else, when the socket takes at least a byte at each write, for as
-- many writes as there are bytes to send, and the reads of the bodies' files succeed; rounds of
-- `while` are enough as many as there are responses.
pub write_locked-sends :
    (fuel : ℕ) (date : Bytes) (conn : Connection) (events : List FdEvent)
    → conn.pending_writes.buffers ≡ []
    → conn.pending_writes.back ≡ none
    → conn.skt.error ≡ false
    → All (Sendable date) conn.pending_responses
    → All Ready events
    → length (unsent date conn.pending_responses) ≤ length events
    → length conn.pending_responses ≤ fuel
    → (s' : Sending) × (write_locked fuel date false (start conn events) ≡ some (s', false))
      × (s'.conn.pending_responses ≡ [])
      × (s'.conn.pending_writes.buffers ≡ [])
      × (s'.sent ≡ unsent date conn.pending_responses)
unfolding write_locked flush
write_locked-sends fuel date conn events empty ends fine all ready enough fuelled =
    let s = start conn events in
    let (s1, ran, g) = write_pending-Going fuel date conn.pending_responses s fuelled all (record {
      first = refl;
      empty = empty;
      ends = ends;
      fine = fine;
      here = refl;
      ready = ready;
      enough = enough;
    }) in
    let written =
      data_buffer_list_writeto_fd s.events s.conn.pending_writes
      >>= (λ r. some (after_flush s r)) in
    let done : write_locked fuel date false s ≡ some (s1, false) =
      ap
        (λ (bs : List DataBuffer).
          (if is_empty bs then some s else written) >>= (λ f. write_pending fuel date false f))
        empty
      ∙ ran in
    let kept =
      write_locked-Keeps fuel date conn events (record { ends = ends; headed = inl empty }) done
        g.fine in
    let nothing : outstanding date s1.conn ≡ [] = outstanding_parts date s1.conn g.empty g.first in
    let all_out : outstanding date conn ≡ unsent date conn.pending_responses =
      outstanding_parts date conn empty refl in
    (
      s1,
      done,
      g.first,
      g.empty,
      sym (append-nil s1.sent) ∙ ap (λ w. s1.sent ++ w) (sym nothing) ∙ kept ∙ all_out,
    )
