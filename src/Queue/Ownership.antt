-- ===== src/Queue/Ownership.antt =====
-- The queue of src/queue.c with the worker threads that fetch from it: each step is one call under
-- the queue's lock, and a call that takes the lock more than once is several steps. `held` are the
-- items that threads have fetched and whose return has not begun, and `returning` those that are off
-- the processing list in a call of `queue_return_item` that has not gone on yet.
use khttp.Common.{
  ℕ, ◌+◌, ◌≤◌, ◌<◌, ◌≡◌, refl, ap, ◌↔◌, inl, inr, Bool, true, false, not, some, List, [], ◌∷◌, ◌++◌,
  arith, ltb, ◌==◌, if◌then◌else◌, select, Bytes,
}
use khttp.Queue.{
  Queue, QueueItem, PendingItem, u64_mod, token_of, queue_item_new2, queue_new, queue_add,
  remove_ptr, queue_remove_byptr, fetch_locked, unblock_ptr, queue_unblock_byptr, has_qid,
  pending_remove, queue_return_item, queue_pending_wait,
}
use khttp.Queue.Fetch.{fetch_locked-Fetched}

pub record System : Type 0 where
  pub queue : Queue
  pub held : List QueueItem
  pub returning : List QueueItem
  pub nextid : ℕ

-- A thread may set `blocked` on the item that it holds before it returns it.
pub data Step (s t : System) : Type 0 where
  enqueue :
      (tag : Bytes) (ptr : ℕ)
      → s.nextid + 1 < u64_mod
      → t ≡ record s {
        queue = (queue_add s.queue (queue_item_new2 s.nextid tag ptr).0).0;
        nextid = (queue_item_new2 s.nextid tag ptr).1;
      }
      → Step s t
  fetch :
      (item : QueueItem)
      → (fetch_locked s.queue).0 ≡ some item
      → t ≡ record s { queue = (fetch_locked s.queue).1; held = item ∷ s.held }
      → Step s t
  release :
      (before after : List QueueItem) (item : QueueItem) (blocked : Bool)
      → s.held ≡ before ++ item ∷ after
      → t ≡ record s {
        queue = pending_remove s.queue item.id;
        held = before ++ after;
        returning = record item { blocked = blocked } ∷ s.returning;
      }
      → Step s t
  requeue :
      (before after : List QueueItem) (item : QueueItem)
      → s.returning ≡ before ++ item ∷ after
      → t ≡ record s { queue = (queue_add s.queue item).0; returning = before ++ after }
      → Step s t
  discard :
      (before after : List QueueItem) (item : QueueItem)
      → s.returning ≡ before ++ item ∷ after
      → t ≡ record s { returning = before ++ after }
      → Step s t
  unblock_byptr :
      (ptr : ℕ) → t ≡ record s { queue = (queue_unblock_byptr s.queue ptr).0 } → Step s t
  remove_byptr : (ptr : ℕ) → t ≡ record s { queue = (queue_remove_byptr s.queue ptr).0 } → Step s t

pub data Reach (s : System) : System → Type 0 where
  here : Reach s s
  next : {t u : System} → Reach s t → Step t u → Reach s u

abbrev pub start : System
start = record { queue = queue_new; held = []; returning = []; nextid = 1 }

-- How often an id occurs among items, and among tokens.
abbrev pub occurs : ℕ → List QueueItem → ℕ
occurs id [] = 0
occurs id (x ∷ xs) = (if x.id == id then 1 else 0) + occurs id xs

abbrev pub tokens : ℕ → List PendingItem → ℕ
tokens id [] = 0
tokens id (x ∷ xs) = (if x.qid == id then 1 else 0) + tokens id xs

-- What holds of each id at all times.
pub record Owned (s : System) (id : ℕ) : Type 0 where
  pub once : occurs id s.queue.list + (occurs id s.held + occurs id s.returning) ≤ 1
  pub fresh :
      s.nextid ≤ id → occurs id s.queue.list + (occurs id s.held + occurs id s.returning) ≡ 0
  pub tokened : tokens id s.queue.processing ≡ occurs id s.held

occurs-append :
    (id : ℕ) (xs ys : List QueueItem) → occurs id (xs ++ ys) ≡ occurs id xs + occurs id ys
occurs-append id [] ys = omega arith
occurs-append id (x ∷ xs) ys = omega (arith, occurs-append id xs ys)

tokens-append :
    (id : ℕ) (xs ys : List PendingItem) → tokens id (xs ++ ys) ≡ tokens id xs + tokens id ys
tokens-append id [] ys = omega arith
tokens-append id (x ∷ xs) ys = omega (arith, tokens-append id xs ys)

occurs-remove_ptr :
    (id ptr : ℕ) (xs : List QueueItem) → occurs id (remove_ptr ptr xs).0 ≤ occurs id xs
unfolding remove_ptr
occurs-remove_ptr id ptr [] = omega arith
occurs-remove_ptr id ptr (x ∷ xs) = ground (arith, occurs-remove_ptr id ptr xs)

occurs-unblock_ptr :
    (id ptr : ℕ) (xs : List QueueItem) → occurs id (unblock_ptr ptr xs).0 ≡ occurs id xs
unfolding unblock_ptr
occurs-unblock_ptr id ptr [] = refl
occurs-unblock_ptr id ptr (x ∷ xs) = ground (arith, occurs-unblock_ptr id ptr xs)

tokens-pending_remove :
    (id gone : ℕ) (q : Queue)
    → tokens id (pending_remove q gone).processing
      ≡ (if gone == id then 0 else tokens id q.processing)
unfolding pending_remove
tokens-pending_remove id gone q = go q.processing
  where
    go :
        (ps : List PendingItem)
        → tokens id (select (λ p. not (p.qid == gone)) ps)
          ≡ (if gone == id then 0 else tokens id ps)
    go [] = ground arith
    go (p ∷ ps) = ground (arith, go ps)

pending_remove_list : (q : Queue) (gone : ℕ) → (pending_remove q gone).list ≡ q.list
unfolding pending_remove
pending_remove_list q gone = refl

has_qid-tokens : (id : ℕ) (ps : List PendingItem) → has_qid ps id ≡ ltb 0 (tokens id ps)
has_qid-tokens id [] = refl
has_qid-tokens id (p ∷ ps) = ground (arith, has_qid-tokens id ps)

fetch-Owned :
    (s : System) (id : ℕ) (item : QueueItem)
    → Owned s id
    → (fetch_locked s.queue).0 ≡ some item
    → Owned (record s { queue = (fetch_locked s.queue).1; held = item ∷ s.held }) id
unfolding token_of
fetch-Owned s id item o e = elim (fetch_locked-Fetched s.queue) [
  | inl (_, r) ↦ absurd (ground (arith, r))
  | inr (_, (before, i, after, split, _, _, r)) ↦ ground (
    arith,
    r,
    ap (occurs id) split,
    occurs-append id before (i ∷ after),
    occurs-append id before after,
    tokens-append id s.queue.processing (token_of i ∷ []),
  )
]

release-Owned :
    (s : System) (id : ℕ) (before after : List QueueItem) (item : QueueItem) (blocked : Bool)
    → Owned s id
    → s.held ≡ before ++ item ∷ after
    → Owned
        (record s {
          queue = pending_remove s.queue item.id;
          held = before ++ after;
          returning = record item { blocked = blocked } ∷ s.returning;
        })
        id
release-Owned s id before after item blocked o split = ground (
  arith,
  ap (occurs id) split,
  occurs-append id before (item ∷ after),
  occurs-append id before after,
  pending_remove_list s.queue item.id,
  tokens-pending_remove id item.id s.queue,
)

requeue-Owned :
    (s : System) (id : ℕ) (before after : List QueueItem) (item : QueueItem)
    → Owned s id
    → s.returning ≡ before ++ item ∷ after
    → Owned (record s { queue = (queue_add s.queue item).0; returning = before ++ after }) id
unfolding queue_add
requeue-Owned s id before after item o split = ground (
  arith,
  ap (occurs id) split,
  occurs-append id before (item ∷ after),
  occurs-append id before after,
  occurs-append id s.queue.list (item ∷ []),
)

discard-Owned :
    (s : System) (id : ℕ) (before after : List QueueItem) (item : QueueItem)
    → Owned s id
    → s.returning ≡ before ++ item ∷ after
    → Owned (record s { returning = before ++ after }) id
discard-Owned s id before after item o split = ground (
  arith,
  ap (occurs id) split,
  occurs-append id before (item ∷ after),
  occurs-append id before after,
)

enqueue-Owned :
    (s : System) (id : ℕ) (tag : Bytes) (ptr : ℕ)
    → s.nextid + 1 < u64_mod
    → Owned s id
    → Owned
        (record s {
          queue = (queue_add s.queue (queue_item_new2 s.nextid tag ptr).0).0;
          nextid = (queue_item_new2 s.nextid tag ptr).1;
        })
        id
unfolding queue_add queue_item_new2
enqueue-Owned s id tag ptr lt o =
    ground (arith, occurs-append id s.queue.list ((queue_item_new2 s.nextid tag ptr).0 ∷ []))

Step-Owned : {s t : System} (id : ℕ) → Step s t → Owned s id → Owned t id
Step-Owned {s} id (enqueue tag ptr lt e) o = rw e (enqueue-Owned s id tag ptr lt o)
Step-Owned {s} id (fetch item got e) o = rw e (fetch-Owned s id item o got)
Step-Owned {s} id (release before after item blocked split e) o =
    rw e (release-Owned s id before after item blocked o split)
Step-Owned {s} id (requeue before after item split e) o =
    rw e (requeue-Owned s id before after item o split)
Step-Owned {s} id (discard before after item split e) o =
    rw e (discard-Owned s id before after item o split)
Step-Owned {s} id (unblock_byptr ptr e) o =
    unfold queue_unblock_byptr in rw e (ground (arith, occurs-unblock_ptr id ptr s.queue.list))
Step-Owned {s} id (remove_byptr ptr e) o =
    unfold queue_remove_byptr in rw e (ground (arith, occurs-remove_ptr id ptr s.queue.list))

Reach-Owned : {s : System} (id : ℕ) → Reach start s → Owned s id
unfolding queue_new
Reach-Owned id here = record { once = omega arith; fresh = λ _. omega arith; tokened = refl }
Reach-Owned id (next r st) = Step-Owned id st (Reach-Owned id r)

-- Whatever the threads do, starting from a new queue, no item is held by two threads, queued twice,
-- or queued while a thread holds it: each id occurs at most once in the queue, the threads' hands and
-- the unfinished calls of `queue_return_item` together. The steps are enqueuing of new items (while
-- the id counter does not wrap), fetches, the sections of `queue_return_item` for held items in either
-- way with any blocked flag, and both operations by pointer.
pub Reach-exclusive :
    (s : System) (id : ℕ)
    → Reach start s
    → occurs id s.queue.list + (occurs id s.held + occurs id s.returning) ≤ 1
Reach-exclusive s id r = (Reach-Owned id r).once

-- In every reachable state `queue_pending_wait` on an id, if no other state follows, returns the queue
-- as it is exactly when no thread holds the item; an item whose `queue_return_item` has taken it off
-- the processing list is not waited for.
pub Reach-pending :
    (s : System) (id : ℕ)
    → Reach start s
    → (queue_pending_wait [] s.queue id ≡ some s.queue) ↔ (occurs id s.held ≡ 0)
unfolding queue_pending_wait
Reach-pending s id r =
    ground (arith, has_qid-tokens id s.queue.processing, (Reach-Owned id r).tokened)

-- The sections of `queue_return_item` in a row, with no other thread between them, do what
-- `queue_return_item` does: from a reachable state in which a thread holds the item, the state with the
-- item returned is reachable.
pub return_item-Reach :
    (s : System) (before after : List QueueItem) (item : QueueItem) (blocked finished : Bool)
    → Reach start s
    → s.held ≡ before ++ item ∷ after
    → Reach start (record s {
      queue = (queue_return_item s.queue (record item { blocked = blocked }) finished).0;
      held = before ++ after;
    })
unfolding queue_return_item
return_item-Reach s before after item blocked true r split =
    next (next r (release before after item blocked split refl))
      (discard [] s.returning (record item { blocked = blocked }) refl refl)
return_item-Reach s before after item blocked false r split =
    next (next r (release before after item blocked split refl))
      (requeue [] s.returning (record item { blocked = blocked }) refl refl)
