-- ===== src/Loop/Write/Bodies.antt =====
-- The sending of a body and the end of a response in the loop of src/server-loop-write.c keep the
-- text, when the reads of a body's file succeed.
use khttp.Common.{
  ℕ, ◌≡◌, refl, sym, ap, ◌∙◌, inl, inr, Bool, true, false, none, some, List, [], ◌∷◌, ◌++◌,
  append_assoc, arith, if◌then◌else◌, Option-cases, bind_inv, some_inj, drop, drop-all, Bytes,
}
use mathlib.Core.Path.{subst}
use khttp.Http.Body.{
  Body, BodyType, body_none, body_string, body_filemap, body_file, BodyData, hbwrite_done, FdEvent,
  FdRun, content_of, http_body_writeto_fd,
}
use khttp.Http.Body.Sending.{writeto_fd_sends, writeto_fd_done}
use khttp.Http.Response.{Response}
use khttp.Buffer.Append.{waiting}
use khttp.Http.ResponseList.{http_response_list_remove}
use khttp.Connection.{Socket, skt_close}
use khttp.Loop.Write.{Sending, put_first, finish_response, asks_close, is_body_none}
use khttp.Loop.Write.Outstanding.{body_left, outstanding_parts, unsent, unsent_from, Keeps, Sound}

pub record Advanced (date : Bytes) (s s' : Sending) : Type 0 where
  pub keeps : Keeps date s s'
  pub sound : Sound s'

pub if_inv {ℓ κ} :
    {A : Type ℓ} (P : A → Type κ) (c : Bool) (x y : A) {z : A}
    → (if c then x else y) ≡ z
    → P x
    → P y
    → P z
if_inv P true x y e px py = subst P e px
if_inv P false x y e px py = subst P e py

pub body_left-some :
    (body : Body) (content : Bytes)
    → content_of body.type body.ptr ≡ some content
    → body_left body ≡ drop body.roffset content
body_left-some body content has = rw (has, body_left) refl

pub body_sent :
    (events : List FdEvent) (body : Body) {body' : Body} {run : FdRun}
    → http_body_writeto_fd events false body ≡ some (body', run)
    → (run.sent ++ body_left body' ≡ body_left body)
      × (run.result ≡ some hbwrite_done → run.sent ≡ body_left body)
unfolding http_body_writeto_fd
body_sent events body {body'} {run} made = elim (Option-cases (content_of body.type body.ptr)) [
  | inl e ↦ absurd (ground (arith, e, made))
  | inr (content, has) ↦
      let (body1, run1, made1, type1, ptr1, split) =
        writeto_fd_sends body content has events false in
      let same : ◌≡◌ {A = Body × FdRun} (body1, run1) (body', run) = some_inj (sym made1 ∙ made) in
      let left : body_left body ≡ drop body.roffset content = body_left-some body content has in
      let kept : run1.sent ++ body_left body1 ≡ body_left body =
        let has1 : content_of body1.type body1.ptr ≡ some content =
          ap (λ t. content_of t body1.ptr) type1 ∙ ap (content_of body.type) ptr1 ∙ has in
        ap (λ t. run1.sent ++ t) (body_left-some body1 content has1) ∙ split ∙ sym left in
      (
        subst (λ p. p.1.sent ++ body_left p.0 ≡ body_left body) same kept,
        λ done. writeto_fd_done body content has events made done ∙ sym left,
      )
]

pub body_left_none : (body : Body) → is_body_none body.type ≡ true → body_left body ≡ []
unfolding content_of
body_left_none body e = at body.type body.ptr body.roffset e
  where
    at :
        (type : BodyType) (ptr : BodyData) (roffset : ℕ)
        → is_body_none type ≡ true
        → body_left (record { type = type; ptr = ptr; roffset = roffset }) ≡ []
    at body_none ptr roffset h = drop-all roffset [] (omega arith)
    at body_string ptr roffset h = absurd (ground (arith, h))
    at body_filemap ptr roffset h = absurd (ground (arith, h))
    at body_file ptr roffset h = absurd (ground (arith, h))

module _ (date : Bytes) (r : Response) (rs : List Response) (s : Sending)
    (e : s.conn.pending_responses ≡ r ∷ rs) (empty : s.conn.pending_writes.buffers ≡ []) where
  -- The response in front becomes `r'`, and what went out grows by what `r'` has less to send.
  pub replaced :
      (r' : Response) (events : List FdEvent) (sent : Bytes) (waits : Bool)
      → sent ++ unsent_from r'.send_status date r' ≡ s.sent ++ unsent_from r.send_status date r
      → Keeps date s (record (put_first r' rs s) { events = events; sent = sent; waits = waits })
  replaced r' events sent waits same =
      let front = unsent_from r.send_status date r in
      let front' = unsent_from r'.send_status date r' in
      record {
        fine = λ h. h;
        text = λ h.
            ap (λ bs. sent ++ (waiting bs ++ (front' ++ unsent date rs))) empty
            ∙ sym (append_assoc sent front' (unsent date rs))
            ∙ ap (λ t. t ++ unsent date rs) same
            ∙ append_assoc s.sent front (unsent date rs)
            ∙ ap (λ t. s.sent ++ t) (sym (outstanding_parts date s.conn empty e));
      }

  module _ (ends : s.conn.pending_writes.back ≡ none) where
    dropped :
        unsent_from r.send_status date r ≡ []
        → (skt : Socket) (rest : List Response) → rs ≡ rest
        → skt.error ≡ s.conn.skt.error
        → Advanced date s (
            let conn = s.conn in
            record s { conn = record conn { skt = skt; pending_responses = rest } })
    dropped nothing skt rest same error = record {
      keeps = record {
        fine = λ h. sym error ∙ h;
        text = λ h.
            ap (λ t. s.sent ++ t)
              (ap (λ l. waiting s.conn.pending_writes.buffers ++ unsent date l) (sym same)
                ∙ ap (λ t. waiting s.conn.pending_writes.buffers ++ (t ++ unsent date rs))
                    (sym nothing)
                ∙ ap (λ l. waiting s.conn.pending_writes.buffers ++ unsent date l) (sym e));
      };
      sound = record { ends = ends; headed = inl empty };
    }

    -- `response->next` becomes the first, or the connection is closed.
    pub finished :
        {s' : Sending} {more : Bool}
        → unsent_from r.send_status date r ≡ []
        → finish_response r s ≡ some (s', more)
        → Advanced date s s'
    unfolding finish_response http_response_list_remove skt_close
    finished nothing ran =
        let (last, _, ran1) = bind_inv (asks_close r) _ ran in
        let (rest, removed, ran2) =
          bind_inv (http_response_list_remove s.conn.pending_responses 0) _ ran1 in
        let same : rs ≡ rest =
          some_inj (sym (ap (λ l. http_response_list_remove l 0) e) ∙ removed) in
        if_inv (λ p. Advanced date s p.0) last _ _ (some_inj ran2)
          (dropped nothing (skt_close s.conn.skt) rest same refl)
          (dropped nothing s.conn.skt rest same refl)
