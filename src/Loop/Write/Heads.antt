-- ===== src/Loop/Write/Heads.antt =====
-- The printing of the head of a response in the loop of src/server-loop-write.c keeps the text.
use khttp.Common.{
  ◌≡◌, refl, sym, ap, ◌∙◌, ◌≢◌, ◌⊎◌, inl, inr, Option, none, some, List, [], ◌∷◌, ◌++◌,
  append_assoc, arith, bind_inv, some_inj, All, Bytes,
}
use mathlib.Core.Path.{subst}
use khttp.Http.Response.{
  Response, send_response_line, send_headers, send_body, send_done, http_response_write,
}
use khttp.Http.Response.Printed.{
  Printed, head_written, body_next, all_done, http_response_write-Printed,
}
use khttp.Buffer.{DataBufferList, data_buffer_list_append}
use khttp.Buffer.Append.{waiting, IsSound, room, append-waiting}
use khttp.Loop.Write.{Sending, add_text, print_head}
use khttp.Loop.Write.Outstanding.{
  outstanding_parts, body_left, printed_text, unsent, unsent_from, Keeps, Headed, no_response,
  body_first, Sound,
}

-- After the head of the first response has been printed.
pub record Started (date : Bytes) (s s' : Sending) : Type 0 where
  pub keeps : Keeps date s s'
  pub ends : s'.conn.pending_writes.back ≡ none
  pub headed : Headed s'.conn.pending_responses

empty_before :
    (r : Response) (rs : List Response) (s : Sending)
    → s.conn.pending_responses ≡ r ∷ rs
    → (r.send_status ≡ send_response_line) ⊎ (r.send_status ≡ send_headers)
    → Sound s
    → s.conn.pending_writes.buffers ≡ []
empty_before r rs s e status sound = elim sound.headed [
  | inl empty ↦ empty
  | inr (no_response none_left) ↦ absurd (ground (arith, e, none_left))
  | inr (body_first r' rest e' status') ↦ absurd (ground (arith, e, e', status, status'))
]

append-empty :
    (writes writes' : DataBufferList) (text : Bytes)
    → writes.back ≡ none
    → writes.buffers ≡ []
    → text ≢ []
    → data_buffer_list_append writes text ≡ some writes'
    → (writes'.back ≡ none) × (waiting writes'.buffers ≡ text)
append-empty writes writes' text ends empty ne e =
    let (list, made, ends', all) =
      append-waiting writes text ne ends (subst (All IsSound) (sym empty) tt)
        (inl (ap room empty)) in
    let same : list ≡ writes' = some_inj (sym made ∙ e) in
    (
      ap (λ l. l.back) (sym same) ∙ ends',
      ap (λ l. waiting l.buffers) (sym same) ∙ all ∙ ap (λ bs. waiting bs ++ text) empty,
    )

with_head : Sending → Response → List Response → DataBufferList → Sending
with_head s r rs writes =
    let conn = s.conn in
    record s { conn = record conn { pending_responses = r ∷ rs; pending_writes = writes } }

unsent-head :
    (date : Bytes) (r r' : Response) (text : Bytes)
    → (r.send_status ≡ send_response_line) ⊎ (r.send_status ≡ send_headers)
    → http_response_write date r ≡ some (some text, r')
    → unsent_from r.send_status date r ≡ text ++ body_left r.body
unsent-head date r r' text (inl e) wrote =
    ap (λ st. unsent_from st date r) e ∙ ap (λ o. printed_text o ++ body_left r.body) wrote
unsent-head date r r' text (inr e) wrote =
    ap (λ st. unsent_from st date r) e ∙ ap (λ o. printed_text o ++ body_left r.body) wrote

same_head :
    (date : Bytes) (r : Response) (rs : List Response) (s : Sending) (writes : DataBufferList)
    → s.conn.pending_responses ≡ r ∷ rs
    → s.conn.pending_writes.back ≡ none
    → (r.send_status ≡ send_body) ⊎ (r.send_status ≡ send_done)
    → add_text none s.conn.pending_writes ≡ some writes
    → Started date s (with_head s r rs writes)
unfolding with_head
same_head date r rs s writes e ends status added =
    let same : s.conn.pending_writes ≡ writes = some_inj added in
    record {
      keeps = record {
        fine = λ h. h;
        text = λ h.
            ap (λ t. s.sent ++ t)
              (sym (outstanding_parts date s.conn (ap (λ w. w.buffers) same) e));
      };
      ends = ap (λ w. w.back) (sym same) ∙ ends;
      headed = body_first r rs refl status;
    }

new_head :
    (date : Bytes) (r r' : Response) (rs : List Response) (s : Sending) (text : Bytes)
    (writes : DataBufferList)
    → s.conn.pending_responses ≡ r ∷ rs
    → s.conn.pending_writes.buffers ≡ []
    → unsent_from r.send_status date r ≡ text ++ body_left r.body
    → r'.send_status ≡ send_body
    → r'.body ≡ r.body
    → (writes.back ≡ none) × (waiting writes.buffers ≡ text)
    → Started date s (with_head s r' rs writes)
unfolding with_head
new_head date r r' rs s text writes e empty was status' body' (ends', all) = record {
  keeps = record {
    fine = λ h. h;
    text = λ h.
        ap (λ t. s.sent ++ t)
          (ap (λ w. w ++ (unsent_from r'.send_status date r' ++ unsent date rs)) all
            ∙ ap (λ w. text ++ (w ++ unsent date rs))
                (ap (λ st. unsent_from st date r') status' ∙ ap body_left body')
            ∙ sym (append_assoc text (body_left r.body) (unsent date rs))
            ∙ ap (λ w. w ++ unsent date rs) (sym was)
            ∙ sym (outstanding_parts date s.conn empty e));
  };
  ends = ends';
  headed = body_first r' rs refl (inl status');
}

head-Started :
    (date : Bytes) (r r' : Response) (rs : List Response) (s : Sending) (text : Option Bytes)
    (writes : DataBufferList)
    → s.conn.pending_responses ≡ r ∷ rs
    → Sound s
    → http_response_write date r ≡ some (text, r')
    → Printed r text r'
    → add_text text s.conn.pending_writes ≡ some writes
    → Started date s (with_head s r' rs writes)
head-Started date r r' rs s text writes e sound wrote (head_written t _ ne status status' body')
      added =
    let empty = empty_before r rs s e status sound in
    new_head date r r' rs s t writes e empty (unsent-head date r r' t status wrote) status' body'
      (append-empty s.conn.pending_writes writes t sound.ends empty ne added)
head-Started date r r' rs s text writes e sound wrote (body_next status) added =
    same_head date r rs s writes e sound.ends (inl status) added
head-Started date r r' rs s text writes e sound wrote (all_done status) added =
    same_head date r rs s writes e sound.ends (inr status) added

pub print_head-Started :
    (date : Bytes) (r : Response) (rs : List Response) (s : Sending) {s' : Sending}
    → s.conn.pending_responses ≡ r ∷ rs
    → Sound s
    → print_head date r rs s ≡ some s'
    → Started date s s'
unfolding print_head with_head
print_head-Started date r rs s e sound ran =
    let ((text, r'), wrote, ran1) = bind_inv (http_response_write date r) _ ran in
    let (writes, added, ran2) = bind_inv (add_text text s.conn.pending_writes) _ ran1 in
    subst (Started date s) (some_inj ran2) (
      head-Started date r r' rs s text writes e sound wrote
        (http_response_write-Printed date r wrote) added)
