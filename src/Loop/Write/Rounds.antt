-- ===== src/Loop/Write/Rounds.antt =====
-- The rounds of the loop of src/server-loop-write.c keep the text, when the reads of a body's file
-- succeed.
use khttp.Common.{
  List-cases, ℕ, zero, suc, ◌≡◌, sym, ap, ◌∙◌, inl, inr, Bool, true, false, not, ◌&&◌, ◌||◌, none,
  some, List, ◌++◌, arith, if◌then◌else◌, is_some, is_empty, ◌>>=◌, bind_inv, some_inj, Bytes,
}
use mathlib.Core.Path.{subst}
use khttp.Http.Body.{FdEvent}
use khttp.Loop.Write.{
  write_first, Sending, send_response, print_head, flush, write_response, write_responses,
  write_pending, write_locked, start,
}
use khttp.Http.ResponseList.{http_response_list_next}
use khttp.Connection.{Connection}
use khttp.Loop.Write.Outstanding.{outstanding, Keeps, keeps_self, keeps_next, Headed, Sound}
use khttp.Loop.Write.Responses.{advance_next, send_response-Advanced}
use khttp.Loop.Write.Heads.{print_head-Started}
use khttp.Loop.Write.Flush.{flush-Flushed}
use khttp.Loop.Write.Bodies.{Advanced}

if_result {ℓ κ} :
    {A : Type ℓ} (P : A → Type κ) (c : Bool) (x y : A) → P x → P y → P (if c then x else y)
if_result P true x y px py = px
if_result P false x y px py = py

write_response-Advanced :
    (date : Bytes) (s : Sending) {s' : Sending} {more : Bool}
    → Sound s
    → write_response date false s ≡ some (s', more)
    → Advanced date s s'
unfolding write_response write_first
write_response-Advanced date s sound ran = elim (List-cases s.conn.pending_responses) [
  | inl e ↦
      let step : write_response date false s ≡ none = ap (λ l. write_first date false l s) e in
      absurd (ground (arith, step, ran))
  | inr (r, rs, e) ↦
      let step : write_response date false s ≡ (
          print_head date r rs s
          >>= (λ printed. flush printed >>= (λ flushed. send_response false flushed))) =
        ap (λ l. write_first date false l s) e in
      let (printed, ran1, ran2) = bind_inv (print_head date r rs s) _ (sym step ∙ ran) in
      let (flushed, ran3, ran4) = bind_inv (flush printed) _ ran2 in
      let started = print_head-Started date r rs s e sound ran1 in
      let flush = flush-Flushed date printed started.ends ran3 in
      advance_next date s flushed _ (keeps_next date s printed flushed started.keeps flush.keeps) (
        send_response-Advanced date flushed flush.ends
          (subst Headed (sym flush.same) started.headed) ran4)
]

write_responses-Advanced :
    (fuel : ℕ) (date : Bytes) (s : Sending) {s' : Sending} {more : Bool}
    → Sound s
    → write_responses fuel date false s ≡ some (s', more)
    → Advanced date s s'
unfolding write_responses
write_responses-Advanced zero date s sound ran =
    subst (λ p. Advanced date s p.0) (some_inj ran)
      (record { keeps = keeps_self date s; sound = sound })
write_responses-Advanced (suc fuel) date s {s'} {more} sound ran =
    let ((s1, more1), ran1, ran2) = bind_inv (write_response date false s) _ ran in
    let first = write_response-Advanced date s sound ran1 in
    if_result (λ o. o ≡ some (s', more) → Advanced date s s') (more1 && not s1.waits) _ _
      (λ ran3.
        advance_next date s s1 s' first.keeps
          (write_responses-Advanced fuel date s1 first.sound ran3))
      (λ ran3. subst (λ p. Advanced date s p.0) (some_inj ran3) first) ran2

write_pending-Keeps :
    (fuel : ℕ) (date : Bytes) (s : Sending) {s' : Sending} {more : Bool}
    → s.conn.pending_writes.back ≡ none
    → write_pending fuel date false s ≡ some (s', more)
    → Keeps date s s'
unfolding write_pending
write_pending-Keeps fuel date s {s'} {more} ends ran =
    let stop = s.waits || not (is_empty s.conn.pending_writes.buffers) in
    let first = is_some (http_response_list_next s.conn.pending_responses) in
    let written = write_responses fuel date false s in
    elim (List-cases s.conn.pending_writes.buffers) [
      | inr (b, bs, e) ↦
          let step : write_pending fuel date false s ≡ some (s, s.waits) = ground (arith, e) in
          subst (λ p. Keeps date s p.0) (some_inj (sym step ∙ ran)) (keeps_self date s)
      | inl e ↦
          if_result (λ o. o ≡ some (s', more) → Keeps date s s') stop (some (s, s.waits))
            (if first then written else some (s, false))
            (λ ran1. subst (λ p. Keeps date s p.0) (some_inj ran1) (keeps_self date s))
            (if_result (λ o. o ≡ some (s', more) → Keeps date s s') first written (some (s, false))
              (λ ran1.
                (write_responses-Advanced fuel date s (record { ends = ends; headed = inl e })
                  ran1).keeps)
              (λ ran1. subst (λ p. Keeps date s p.0) (some_inj ran1) (keeps_self date s)))
            ran
    ]

-- However long a round of the write loop runs and whatever the socket answers, the bytes that went out
-- followed by what is then still to be sent are what was to be sent at its start: the bytes in the
-- buffers, then the pending responses in order, each with its head and its body. This is so
-- for a list of buffers that ends in NULL and has bytes only when the head of the first response has
-- been printed, when the reads of the bodies' files succeed and the socket shows no error
-- at the end.
pub write_locked-Keeps :
    (fuel : ℕ) (date : Bytes) (conn : Connection) (events : List FdEvent) {s' : Sending}
    {more : Bool}
    → Sound (start conn events)
    → write_locked fuel date false (start conn events) ≡ some (s', more)
    → s'.conn.skt.error ≡ false
    → s'.sent ++ outstanding date s'.conn ≡ outstanding date conn
unfolding write_locked
write_locked-Keeps fuel date conn events {s'} sound ran fine =
    let s = start conn events in
    let (flushed, ran1, ran2) = bind_inv (flush s) _ ran in
    let first = flush-Flushed date s sound.ends ran1 in
    (keeps_next date s flushed s' first.keeps
        (write_pending-Keeps fuel date flushed first.ends ran2)).text
      fine
