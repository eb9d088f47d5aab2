-- ===== src/Loop/Write/Spinning.antt =====
-- The loop of src/server-loop-write.c on a socket with an error.
use khttp.Common.{
  ℕ, zero, suc, ◌≡◌, refl, ap, ◌∙◌, Bool, true, false, not, ◌&&◌, ◌||◌, some, List, [], ◌∷◌,
  if◌then◌else◌, is_empty, ◌>>=◌, Bytes,
}
use khttp.Http.Response.{Response, send_body}
use khttp.Http.Response.Printed.{http_response_write-next}
use khttp.Buffer.{data_buffer_list_writeto_fd}
use khttp.Loop.Write.{
  Sending, print_head, flush, send_response, write_response, write_responses, write_first,
  send_first, after_flush,
}

module _ (date : Bytes) (broken : Bool) (s : Sending) (r : Response) (rs : List Response)
    (first : s.conn.pending_responses ≡ r ∷ rs) (status : r.send_status ≡ send_body)
    (empty : s.conn.pending_writes.buffers ≡ []) (failed : s.conn.skt.error ≡ true)
    (here : s.waits ≡ false) where
  print_head-same : print_head date r rs s ≡ some s
  unfolding print_head
  print_head-same = rw (http_response_write-next date r status, print_head) (rw (← first) refl)

  flush-same : flush s ≡ some s
  unfolding flush
  flush-same =
      let written =
        data_buffer_list_writeto_fd s.events s.conn.pending_writes
        >>= (λ run. some (after_flush s run)) in
      ap (λ bs. if is_empty bs then some s else written) empty

  send_response-same : send_response broken s ≡ some (s, true)
  unfolding send_response
  send_response-same =
      let sent = send_first broken s.conn.pending_responses s in
      let bad = not (is_empty s.conn.pending_writes.buffers) in
      ap (λ w. if w || (s.conn.skt.error || bad) then some (s, true) else sent) here
      ∙ ap (λ e. if e || bad then some (s, true) else sent) failed

  write_response-same : write_response date broken s ≡ some (s, true)
  unfolding write_response write_first
  write_response-same =
      ap (λ l. write_first date broken l s) first
      ∙ ap (λ o. o >>= (λ t. flush t >>= (λ u. send_response broken u))) print_head-same
      ∙ ap (λ o. o >>= (λ u. send_response broken u)) flush-same
      ∙ send_response-same

  -- When the socket shows an error, no buffer waits, and the head of the response in front has been
  -- printed, a round of `while (response != NULL)` changes nothing, so that after any number of rounds
  -- the loop has not ended, has sent nothing, and has not even called write(2).
  pub write_responses-spins : (fuel : ℕ) → write_responses fuel date broken s ≡ some (s, true)
  unfolding write_responses
  write_responses-spins zero = refl
  write_responses-spins (suc fuel) =
      let again = write_responses fuel date broken in
      ap (λ o. o >>= (λ p. if p.1 && not (p.0).waits then again p.0 else some p))
        write_response-same
      ∙ ap (λ w. if not w then again s else some (s, true)) here
      ∙ write_responses-spins fuel
