-- ===== src/Loop/Write/Responses.antt =====
-- What is sent of the response in front in the loop of src/server-loop-write.c keeps the text, when
-- the reads of a body's file succeed.
use khttp.Common.{
  ◌≡◌, refl, sym, ap, ◌∙◌, inl, inr, Bool, true, false, not, ◌||◌, Option, none, some, List, [],
  ◌∷◌, ◌++◌, append-nil, append_assoc, arith, Bool-cases, is_empty, ◌>>=◌, bind_inv, some_inj,
  Bytes,
}
use mathlib.Core.Path.{subst}
use khttp.Http.Body.{
  Body, WriteResult, hbwrite_done, hbwrite_more, hbwrite_blocked, hbwrite_error, FdRun,
  http_body_writeto_fd,
}
use khttp.Http.Response.{
  Response, SendStatus, send_response_line, send_headers, send_body, send_done,
}
use khttp.Loop.Write.{
  Sending, put_first, finish_response, after_run, after_body, set_error, is_body_none, send_rest,
  send_first, send_response,
}
use khttp.Loop.Write.Outstanding.{
  body_left, unsent_from, Keeps, keeps_self, keeps_next, Headed, no_response, body_first,
}
use khttp.Loop.Write.Bodies.{Advanced, body_sent, body_left_none, replaced, finished}

failed_anyway :
    (date : Bytes) (s t s' : Sending)
    → t.conn.skt.error ≡ true
    → Advanced date t s'
    → Advanced date s s'
failed_anyway date s t s' failed next =
    let never : s'.conn.skt.error ≡ false → ⊥ = λ h. ground (arith, failed, next.keeps.fine h) in
    record {
      keeps = record { fine = λ h. absurd (never h); text = λ h. absurd (never h) };
      sound = next.sound;
    }

pub advance_next :
    (date : Bytes) (s t s' : Sending) → Keeps date s t → Advanced date t s' → Advanced date s s'
advance_next date s t s' k a = record { keeps = keeps_next date s t s' k a.keeps; sound = a.sound }

module _ (date : Bytes) (r : Response) (rs : List Response) (s : Sending)
    (e : s.conn.pending_responses ≡ r ∷ rs) (empty : s.conn.pending_writes.buffers ≡ [])
    (ends : s.conn.pending_writes.back ≡ none) where
  same : Advanced date s s
  same = record { keeps = keeps_self date s; sound = record { ends = ends; headed = inl empty } }

  -- The body has been written as far as it goes.
  partly :
      (body : Body) (run : FdRun) (waits : Bool)
      → r.send_status ≡ send_body
      → http_body_writeto_fd s.events false r.body ≡ some (body, run)
      → Advanced date s (record (put_first (record r { body = body }) rs s) {
        events = run.rest;
        sent = s.sent ++ run.sent;
        waits = waits;
      })
  partly body run waits status made = record {
    keeps =
        replaced date r rs s e empty (record r { body = body }) run.rest (s.sent ++ run.sent) waits
          (ap (λ st. (s.sent ++ run.sent) ++ unsent_from st date (record r { body = body })) status
            ∙ append_assoc s.sent run.sent (body_left body)
            ∙ ap (λ t. s.sent ++ t) (body_sent s.events r.body made).0
            ∙ sym (ap (λ st. s.sent ++ unsent_from st date r) status));
    sound = record { ends = ends; headed = inl empty };
  }

  -- The body has been sent, and the response is done with.
  wholly :
      (body : Body) (run : FdRun) {s' : Sending} {more : Bool}
      → r.send_status ≡ send_body
      → run.sent ≡ body_left r.body
      → finish_response
          (record r { body = body; send_status = send_done })
          (record (put_first (record r { body = body; send_status = send_done }) rs s) {
            events = run.rest;
            sent = s.sent ++ run.sent;
          })
        ≡ some (s', more)
      → Advanced date s s'
  wholly body run {s'} status all ran =
      let done = record r { body = body; send_status = send_done } in
      let t = record (put_first done rs s) { events = run.rest; sent = s.sent ++ run.sent } in
      advance_next date s t s'
        (replaced date r rs s e empty done run.rest (s.sent ++ run.sent) s.waits (
          append-nil (s.sent ++ run.sent)
          ∙ ap (λ w. s.sent ++ w) all
          ∙ sym (ap (λ st. s.sent ++ unsent_from st date r) status)))
        (finished date done rs t refl empty ends refl ran)

  after_body-Advanced :
      (body : Body) (run : FdRun) (result : Option WriteResult) {s' : Sending} {more : Bool}
      → run.result ≡ result
      → r.send_status ≡ send_body
      → http_body_writeto_fd s.events false r.body ≡ some (body, run)
      → after_body result (record r { body = body }) rs s run ≡ some (s', more)
      → Advanced date s s'
  unfolding after_body set_error
  after_body-Advanced body run none er status made ran =
      subst (λ p. Advanced date s p.0) (some_inj ran) (partly body run true status made)
  after_body-Advanced body run (some hbwrite_more) er status made ran =
      subst (λ p. Advanced date s p.0) (some_inj ran) (partly body run s.waits status made)
  after_body-Advanced body run (some hbwrite_blocked) er status made ran =
      subst (λ p. Advanced date s p.0) (some_inj ran) (partly body run s.waits status made)
  after_body-Advanced body run (some hbwrite_done) er status made ran =
      wholly body run status ((body_sent s.events r.body made).1 er) ran
  after_body-Advanced body run (some hbwrite_error) {s'} er status made ran =
      let done = record r { body = body; send_status = send_done } in
      let reached = after_run done rs s run in
      let failed = record reached { conn = set_error reached.conn } in
      failed_anyway date s failed s' refl (finished date done rs failed refl empty ends refl ran)

  bodyless :
      {s' : Sending} {more : Bool}
      → is_body_none r.body.type ≡ true
      → r.send_status ≡ send_body
      → finish_response
          (record r { send_status = send_done })
          (put_first (record r { send_status = send_done }) rs s)
        ≡ some (s', more)
      → Advanced date s s'
  bodyless {s'} bodyless_type status ran =
      let done = record r { send_status = send_done } in
      let t = put_first done rs s in
      advance_next date s t s'
        (replaced date r rs s e empty done s.events s.sent s.waits (
          ap (λ w. s.sent ++ w)
            (sym (ap (λ st. unsent_from st date r) status ∙ body_left_none r.body bodyless_type))))
        (finished date done rs t refl empty ends refl ran)

  send_rest-Advanced :
      (status : SendStatus) {s' : Sending} {more : Bool}
      → r.send_status ≡ status
      → send_rest false status r rs s ≡ some (s', more)
      → Advanced date s s'
  unfolding send_rest
  send_rest-Advanced send_response_line here ran =
      subst (λ p. Advanced date s p.0) (some_inj ran) same
  send_rest-Advanced send_headers here ran = subst (λ p. Advanced date s p.0) (some_inj ran) same
  send_rest-Advanced send_done here ran =
      finished date r rs s e empty ends (ap (λ st. unsent_from st date r) here) ran
  send_rest-Advanced send_body {s'} here ran = elim (Bool-cases (is_body_none r.body.type)) [
    | inl bodyless_type ↦
        let step : send_rest false send_body r rs s
            ≡ finish_response (record r { send_status = send_done })
                (put_first (record r { send_status = send_done }) rs s) =
          rw (bodyless_type, send_rest) refl in
        bodyless bodyless_type here (sym step ∙ ran)
    | inr some_body ↦
        let step : send_rest false send_body r rs s ≡ (
            http_body_writeto_fd s.events false r.body
            >>= (λ p. after_body p.1.result (record r { body = p.0 }) rs s p.1)) =
          rw (some_body, send_rest) refl in
        let ((body, run), made, ran1) =
          bind_inv (http_body_writeto_fd s.events false r.body) _ (sym step ∙ ran) in
        after_body-Advanced body run run.result refl here made ran1
  ]

send_first-Advanced :
    (date : Bytes) (s : Sending) {s' : Sending} {more : Bool}
    → s.conn.pending_writes.buffers ≡ []
    → s.conn.pending_writes.back ≡ none
    → Headed s.conn.pending_responses
    → send_first false s.conn.pending_responses s ≡ some (s', more)
    → Advanced date s s'
unfolding send_first
send_first-Advanced date s empty ends (no_response e) ran =
    absurd (ground (arith, sym (ap (λ l. send_first false l s) e) ∙ ran))
send_first-Advanced date s empty ends (body_first r rs e status) ran =
    send_rest-Advanced date r rs s e empty ends r.send_status refl
      (sym (ap (λ l. send_first false l s) e) ∙ ran)

nothing_waits {ℓ} :
    {A : Type ℓ} (a b : Bool) (xs : List A) → (a || (b || not (is_empty xs))) ≡ false → xs ≡ []
nothing_waits a b [] h = refl
nothing_waits a b (x ∷ xs) h = ground (arith, h)

pub send_response-Advanced :
    (date : Bytes) (s : Sending) {s' : Sending} {more : Bool}
    → s.conn.pending_writes.back ≡ none
    → Headed s.conn.pending_responses
    → send_response false s ≡ some (s', more)
    → Advanced date s s'
unfolding send_response
send_response-Advanced date s ends headed ran =
    elim (Bool-cases
      (s.waits || (s.conn.skt.error || not (is_empty s.conn.pending_writes.buffers)))) [
        | inl stay ↦
            let step : send_response false s ≡ some (s, true) = rw (stay, send_response) refl in
            subst (λ p. Advanced date s p.0) (some_inj (sym step ∙ ran))
              (record {
                keeps = keeps_self date s;
                sound = record { ends = ends; headed = inr headed };
              })
        | inr go ↦
            let step : send_response false s ≡ send_first false s.conn.pending_responses s =
              rw (go, send_response) refl in
            send_first-Advanced date s
              (nothing_waits s.waits s.conn.skt.error s.conn.pending_writes.buffers go) ends headed
              (sym step ∙ ran)
      ]
