-- ===== src/Queue/Waiting.antt =====
-- What `queue_pending_waitptr` of src/queue.c waits for, which the clean-up of src/server-loop.c calls
-- after `queue_remove_byptr`.
use khttp.Common.{
  if◌then◌else◌, none, ap, ℕ, ◌<◌, ◌≡◌, refl, false, not, some, List, [], ◌∷◌, ◌++◌, arith, ◌==◌,
  select, Bool-cases, if_cases, All, Option, inl, inr, ◌⊎◌, ◌≢◌,
}
use khttp.Queue.{
  Queue, QueueItem, PendingItem, queue_add, has_qid, has_pending, pending_remove, pending_id,
  waitptr_loop, queue_remove_byptr, queue_return_item, queue_pending_waitptr,
}
use khttp.Queue.ByPtr.{others, remove_ptr_lem}

-- Every token is for an item with an id other than 0, as `queue_item_new` gives them.
abbrev pub Numbered : Queue → Type 0
Numbered q = All (λ (p : PendingItem). 0 < p.qid) q.processing

-- No token of the queue is for the pointer.
abbrev pub Clear : ℕ → Queue → Type 0
Clear ptr q = All (λ (p : PendingItem). p.ptr ≢ ptr) q.processing

abbrev pub Seen : Queue → List Queue → Type 0
Seen q [] = ⊥
Seen q (w ∷ ws) = (w ≡ q) ⊎ Seen q ws

-- A wait that is over: it ended with one of the states, in which no token is for the pointer.
pub record Ended (states : List Queue) (ptr : ℕ) (outcome : Option Queue) : Type 0 where
  pub last : Queue
  pub ended : outcome ≡ some last
  pub seen : Seen last states
  pub clear : Clear ptr last

pending_id-clear :
    (ps : List PendingItem) (ptr : ℕ)
    → All (λ (p : PendingItem). 0 < p.qid) ps
    → pending_id ps ptr ≡ 0
    → All (λ (p : PendingItem). p.ptr ≢ ptr) ps
pending_id-clear [] ptr h e = tt
pending_id-clear (p ∷ ps) ptr (pos, later) e = elim (Bool-cases (p.ptr == ptr)) [
  | inl same ↦ absurd (ground (arith, pos, same, e))
  | inr other ↦ (ground (arith, other), pending_id-clear ps ptr later (ground (arith, other, e)))
]

Ended-earlier :
    (q : Queue) (states : List Queue) (ptr : ℕ) {outcome : Option Queue}
    → Ended states ptr outcome
    → Ended (q ∷ states) ptr outcome
Ended-earlier q states ptr h = record {
  last = h.last;
  ended = h.ended;
  seen = inr h.seen;
  clear = h.clear;
}

drained_ends :
    (itemid : ℕ) (v : Queue) (ptr : ℕ)
    → v.processing ≡ []
    → waitptr_loop (v ∷ []) itemid v ptr ≡ some v
unfolding waitptr_loop has_pending
drained_ends itemid v ptr e = ground (arith, e)

-- One look of the loop, given how the rest of it ends whatever is waited for.
step-Ended :
    (itemid : ℕ) (q w : Queue) (ws : List Queue) (ptr : ℕ)
    → Numbered q
    → ((id : ℕ) → Ended (w ∷ ws) ptr (waitptr_loop ws id w ptr))
    → Ended (q ∷ w ∷ ws) ptr (waitptr_loop (w ∷ ws) itemid q ptr)
unfolding waitptr_loop
step-Ended itemid q w ws ptr h rest =
    let over = Ended (q ∷ w ∷ ws) ptr in
    let later = λ (id : ℕ). Ended-earlier q (w ∷ ws) ptr (rest id) in
    if_cases over (itemid == 0)
      (λ looking.
        if_cases over (pending_id q.processing ptr == 0)
          (λ e. record {
            last = q;
            ended = refl;
            seen = inl refl;
            clear = pending_id-clear q.processing ptr h (ground (arith, e));
          })
          (λ e. later (pending_id q.processing ptr)))
      (λ waiting. if_cases over (has_pending q itemid) (λ e. later itemid) (λ e. later 0))

waitptr_loop-Ended :
    (states : List Queue) (itemid : ℕ) (q v : Queue) (ptr : ℕ)
    → Numbered q
    → All Numbered states
    → v.processing ≡ []
    → Ended (q ∷ (states ++ v ∷ v ∷ [])) ptr (waitptr_loop (states ++ v ∷ v ∷ []) itemid q ptr)
waitptr_loop-Ended [] itemid q v ptr h hs e =
    step-Ended itemid q v (v ∷ []) ptr h
      (λ id. record { last = v; ended = drained_ends id v ptr e; seen = inl refl; clear = rw e tt })
waitptr_loop-Ended (w ∷ ws) itemid q v ptr h (here, later) e =
    step-Ended itemid q w (ws ++ v ∷ v ∷ []) ptr h
      (λ id. waitptr_loop-Ended ws id w v ptr here later e)

-- Whatever other threads do to the queue, if its tokens are for items with ids other than 0 and it is
-- in the end, for two looks, without any token, then `queue_pending_waitptr` returns, and of the
-- states that it sees the one at which it returns has no token for the pointer at all.
pub waitptr-clear :
    (states : List Queue) (q v : Queue) (ptr : ℕ)
    → Numbered q
    → All Numbered states
    → v.processing ≡ []
    → Ended (q ∷ (states ++ v ∷ v ∷ [])) ptr (queue_pending_waitptr (states ++ v ∷ v ∷ []) q ptr)
unfolding queue_pending_waitptr
waitptr-clear states q v ptr h hs e = waitptr_loop-Ended states 0 q v ptr h hs e

has_qid-select :
    (id : ℕ) (ps : List PendingItem) → has_qid (select (λ p. not (p.qid == id)) ps) id ≡ false
has_qid-select id [] = refl
has_qid-select id (p ∷ ps) = ground (arith, has_qid-select id ps)

-- A thread holds an item for the pointer, with the only token for it, when the clean-up removes the
-- pointer's items and then waits. If the thread returns the item unfinished, the wait ends with the
-- item back in the queue: it still carries the pointer, although the clean-up goes on to free it.
pub waitptr_leaves :
    (q : Queue) (item : QueueItem)
    → 0 < item.id
    → pending_id q.processing item.ptr ≡ item.id
    → pending_id (pending_remove q item.id).processing item.ptr ≡ 0
    → let removed = (queue_remove_byptr q item.ptr).0 in
      let returned = (queue_return_item removed item false).0 in
      (queue_pending_waitptr (returned ∷ returned ∷ []) removed item.ptr ≡ some returned)
      × (returned.list ≡ others item.ptr q.list ++ item ∷ [])
unfolding queue_pending_waitptr waitptr_loop queue_remove_byptr queue_return_item queue_add
    has_pending pending_remove
waitptr_leaves q item pos held gone =
    ground (arith, has_qid-select item.id q.processing, remove_ptr_lem item.ptr q.list)

-- With no token for the pointer there is nothing to wait for.
pub waitptr_idle :
    (q : Queue) (ptr : ℕ) → q.processing ≡ [] → queue_pending_waitptr [] q ptr ≡ some q
unfolding queue_pending_waitptr waitptr_loop
waitptr_idle q ptr e = ap (λ ps. if pending_id ps ptr == 0 then some q else none) e
