-- ===== src/Loop/Write/Outstanding.antt =====
-- What is still to be sent on a connection, and what one step of the loop of
-- src/server-loop-write.c keeps of it.
use khttp.Common.{
  ap, ◌≡◌, refl, ap, ◌∙◌, ◌⊎◌, false, Option, none, some, List, [], ◌∷◌, ◌++◌, drop, Bytes,
}
use khttp.Http.Body.{Body, content_of}
use khttp.Http.Response.{
  Response, SendStatus, send_response_line, send_headers, send_body, send_done, http_response_write,
}
use khttp.Buffer.{DataBuffer}
use khttp.Buffer.Append.{waiting}
use khttp.Connection.{Connection}
use khttp.Loop.Write.{Sending}

-- The part of a body that has not been sent.
abbrev pub body_left : Body → Bytes
body_left body = elim (content_of body.type body.ptr) [
  | none ↦ []
  | some content ↦ drop body.roffset content
]

-- The text of the head, if it has not been printed yet.
abbrev pub printed_text : Option (Option Bytes × Response) → Bytes
printed_text none = []
printed_text (some (none, r)) = []
printed_text (some (some text, r)) = text

abbrev pub unsent_from : SendStatus → Bytes → Response → Bytes
unsent_from send_response_line date r =
    printed_text (http_response_write date r) ++ body_left r.body
unsent_from send_headers date r = printed_text (http_response_write date r) ++ body_left r.body
unsent_from send_body date r = body_left r.body
unsent_from send_done date r = []

abbrev pub unsent : Bytes → List Response → Bytes
unsent date [] = []
unsent date (r ∷ rs) = unsent_from r.send_status date r ++ unsent date rs

-- The bytes in the buffers, then for each response its head and its body, as far as they have not
-- been sent.
abbrev pub outstanding : Bytes → Connection → Bytes
outstanding date conn = waiting conn.pending_writes.buffers ++ unsent date conn.pending_responses

pub outstanding_parts :
    (date : Bytes) (conn : Connection) {bs : List DataBuffer} {rs : List Response}
    → conn.pending_writes.buffers ≡ bs
    → conn.pending_responses ≡ rs
    → outstanding date conn ≡ waiting bs ++ unsent date rs
outstanding_parts date conn {bs} {rs} eb er =
    ap (λ b. waiting b ++ unsent date conn.pending_responses) eb
    ∙ ap (λ l. waiting bs ++ unsent date l) er

-- As long as the socket shows no error, what went out and what is outstanding make up the same
-- text.
pub record Keeps (date : Bytes) (s s' : Sending) : Type 0 where
  pub fine : s'.conn.skt.error ≡ false → s.conn.skt.error ≡ false
  pub text :
      s'.conn.skt.error ≡ false
      → s'.sent ++ outstanding date s'.conn ≡ s.sent ++ outstanding date s.conn

pub keeps_self : (date : Bytes) (s : Sending) → Keeps date s s
keeps_self date s = record { fine = λ e. e; text = λ e. refl }

pub keeps_next : (date : Bytes) (r s t : Sending) → Keeps date r s → Keeps date s t → Keeps date r t
keeps_next date r s t a b = record {
  fine = λ e. a.fine (b.fine e);
  text = λ e. b.text e ∙ a.text (b.fine e);
}

-- The response in front, if there is one, has had its head printed.
pub data Headed (rs : List Response) : Type 0 where
  no_response : rs ≡ [] → Headed rs
  body_first :
      (r : Response) (rest : List Response)
      → rs ≡ r ∷ rest
      → (r.send_status ≡ send_body) ⊎ (r.send_status ≡ send_done)
      → Headed rs

-- The list of buffers ends in NULL, and bytes wait in it only once the head of the first response
-- has been printed.
pub record Sound (s : Sending) : Type 0 where
  pub ends : s.conn.pending_writes.back ≡ none
  pub headed : (s.conn.pending_writes.buffers ≡ []) ⊎ Headed s.conn.pending_responses
