-- ===== src/Queue.antt =====
-- src/queue.c and src/queue.h: the work queue that the thread pools share. An item is known by its
-- `id`, which the atomic counter of `queue_item_new` makes unique; `ptr` is the field `data`. A
-- queue's lock makes each function below one step; `Signal` records what it wakes.
pub mod Fetch
pub mod Count
pub mod ByPtr
pub mod Ownership
pub mod Waiting
pub mod Examples
use khttp.Common.{
  ℕ, ◌+◌, ◌-◌, ◌%◌, ◌^◌, Bool, true, false, not, ◌&&◌, ◌||◌, Option, none, some, List, [], ◌∷◌,
  ◌++◌, ltb, ◌==◌, if◌then◌else◌, length, take, select, Bytes,
}

abbrev pub u64_mod : ℕ
u64_mod = 2 ^ 64

pub record QueueItem : Type 0 where
  pub id : ℕ
  pub tag : Bytes
  pub blocked : Bool
  pub ptr : ℕ

pub record PendingItem : Type 0 where
  pub qid : ℕ
  pub ptr : ℕ

pub record Queue : Type 0 where
  pub list : List QueueItem
  pub count : ℕ
  pub processing : List PendingItem

pub data Signal : Type 0 where
  signal_cond broadcast_cond broadcast_processing : Signal

-- The counter `nextid` is passed through.
unfoldable pub queue_item_new : ℕ → QueueItem × ℕ
queue_item_new nextid =
    (record { id = nextid; tag = []; blocked = false; ptr = 0 }, (nextid + 1) % u64_mod)

-- `strncat` copies at most QUEUE_ITEM_TAG_LEN - 1 bytes.
unfoldable pub queue_item_new2 : ℕ → Bytes → ℕ → QueueItem × ℕ
unfolding queue_item_new
queue_item_new2 nextid tag ptr =
    let (item, nextid') = queue_item_new nextid in
    (record item { tag = take 15 tag; ptr = ptr }, nextid')

unfoldable pub queue_new : Queue
queue_new = record { list = []; count = 0; processing = [] }

unfoldable pub queue_add : Queue → QueueItem → Queue × List Signal
queue_add q item = (
  record q { list = q.list ++ item ∷ []; count = (q.count + 1) % u64_mod },
  if item.blocked then [] else signal_cond ∷ [],
)

-- The loop of `queue_remove` stops at the first match; the flag is its `result`.
pub remove_one : ℕ → List QueueItem → List QueueItem × ℕ
remove_one id [] = ([], 0)
remove_one id (x ∷ xs) =
    let (rest, result) = remove_one id xs in if x.id == id then (xs, 1) else (x ∷ rest, result)

unfoldable pub queue_remove : Queue → ℕ → Queue × ℕ
unfolding remove_one
queue_remove q id =
    let (list, result) = remove_one id q.list in
    (record q { list = list; count = (q.count + u64_mod - result) % u64_mod }, result)

-- The loop of `queue_remove_byptr` goes through the whole list.
pub remove_ptr : ℕ → List QueueItem → List QueueItem × ℕ
remove_ptr ptr [] = ([], 0)
remove_ptr ptr (x ∷ xs) =
    let (rest, result) = remove_ptr ptr xs in
    if x.ptr == ptr then (rest, result + 1) else (x ∷ rest, result)

unfoldable pub queue_remove_byptr : Queue → ℕ → Queue × ℕ
unfolding remove_ptr
queue_remove_byptr q ptr =
    let (list, result) = remove_ptr ptr q.list in
    (record q { list = list; count = (q.count + u64_mod - result % u64_mod) % u64_mod }, result)

-- LL_FOREACH to the first item that is not blocked, and DL_DELETE of it.
pub take_unblocked : List QueueItem → Option (QueueItem × List QueueItem)
take_unblocked [] = none
take_unblocked (x ∷ xs) = elim x.blocked [
  | true ↦ elim (take_unblocked xs) [ none ↦ none | some (item, rest) ↦ some (item, x ∷ rest) ]
  | false ↦ some (x, xs)
]

pub token_of : QueueItem → PendingItem
token_of item = record { qid = item.id; ptr = item.ptr }

-- What `queue_fetchone` does once it holds the lock and has done waiting.
unfoldable pub fetch_locked : Queue → Option QueueItem × Queue
unfolding take_unblocked token_of
fetch_locked q =
    if ltb 0 q.count
    then (elim (take_unblocked q.list) [
      | none ↦ (none, q)
      | some (item, rest) ↦ (
        some item,
        record {
          list = rest;
          count = (q.count + u64_mod - 1) % u64_mod;
          processing = q.processing ++ token_of item ∷ [];
        },
      )
    ])
    else (none, q)

-- `wait` is what the other threads make of the queue during `pthread_cond_wait`.
unfoldable pub queue_fetchone : (Queue → Queue) → Queue → Bool → Option QueueItem × Queue
unfolding fetch_locked
queue_fetchone wait q blocking = fetch_locked (if (q.count == 0) && blocking then wait q else q)

-- The loop of `queue_unblock`: the flag says whether an item was woken.
pub unblock_one : ℕ → List QueueItem → List QueueItem × Bool
unblock_one id [] = ([], false)
unblock_one id (x ∷ xs) =
    let (rest, woken) = unblock_one id xs in
    if x.id == id then (record x { blocked = false } ∷ xs, x.blocked) else (x ∷ rest, woken)

unfoldable pub queue_unblock : Queue → ℕ → Queue × List Signal
unfolding unblock_one
queue_unblock q id =
    let (list, woken) = unblock_one id q.list in
    (record q { list = list }, if woken then signal_cond ∷ [] else [])

-- The loop of `queue_unblock_byptr`, with its `count`.
pub unblock_ptr : ℕ → List QueueItem → List QueueItem × ℕ
unblock_ptr ptr [] = ([], 0)
unblock_ptr ptr (x ∷ xs) =
    let (rest, count) = unblock_ptr ptr xs in
    if x.ptr == ptr then (record x { blocked = false } ∷ rest, count + 1) else (x ∷ rest, count)

unfoldable pub queue_unblock_byptr : Queue → ℕ → Queue × ℕ × List Signal
unfolding unblock_ptr
queue_unblock_byptr q ptr =
    let (list, count) = unblock_ptr ptr q.list in
    (record q { list = list }, count, if ltb 0 count then signal_cond ∷ [] else [])

-- Both lists are emptied; `count` is left as it was.
unfoldable pub queue_clear : Queue → Queue
queue_clear q = record q { list = []; processing = [] }

unfoldable pub queue_ping : Queue → List Signal
queue_ping q = broadcast_cond ∷ []

unfoldable pub queue_count : Queue → ℕ
queue_count q = q.count

-- QUEUE_PENDING_REMOVE
unfoldable pub pending_remove : Queue → ℕ → Queue
pending_remove q id = record q { processing = select (λ p. not (p.qid == id)) q.processing }

-- QUEUE_HAS_PENDING
abbrev pub has_qid : List PendingItem → ℕ → Bool
has_qid [] id = false
has_qid (p ∷ ps) id = (p.qid == id) || has_qid ps id

unfoldable pub has_pending : Queue → ℕ → Bool
has_pending q id = has_qid q.processing id

-- The three sections under the lock, as one call with no other thread between them.
unfoldable pub queue_return_item : Queue → QueueItem → Bool → Queue × List Signal
unfolding pending_remove queue_add
queue_return_item q item finished =
    let q' = pending_remove q item.id in
    let (q'', signals) = (if finished then (q', []) else queue_add q' item) in
    (q'', signals ++ broadcast_processing ∷ [])

-- The queue as it is after each wait; `none` while the item is still pending after the last.
unfoldable pub queue_pending_wait : List Queue → Queue → ℕ → Option Queue
unfolding has_pending
queue_pending_wait [] q id = if has_pending q id then none else some q
queue_pending_wait (w ∷ ws) q id =
    let later = queue_pending_wait ws w id in if has_pending q id then later else some q

-- The id of the first token of `ptr`, 0 if there is none.
abbrev pub pending_id : List PendingItem → ℕ → ℕ
pending_id [] ptr = 0
pending_id (p ∷ ps) ptr = if p.ptr == ptr then p.qid else pending_id ps ptr

-- The loop of `queue_pending_waitptr`, while it looks for a token (`itemid` 0) or waits for `itemid`.
-- The list has the queue as it is each time that the lock is taken again.
pub waitptr_loop : List Queue → ℕ → Queue → ℕ → Option Queue
unfolding has_pending
waitptr_loop [] itemid q ptr =
    if (itemid == 0) && (pending_id q.processing ptr == 0) then some q else none
waitptr_loop (w ∷ ws) itemid q ptr =
    let search = waitptr_loop ws 0 w ptr in
    let wait = waitptr_loop ws itemid w ptr in
    let wait_first = waitptr_loop ws (pending_id q.processing ptr) w ptr in
    if itemid == 0
    then (if pending_id q.processing ptr == 0 then some q else wait_first)
    else if has_pending q itemid
    then wait
    else search

unfoldable pub queue_pending_waitptr : List Queue → Queue → ℕ → Option Queue
unfolding waitptr_loop
queue_pending_waitptr states q ptr = waitptr_loop states 0 q ptr

-- What `queue_delete` frees, and whether it warns of pending items first.
unfoldable pub queue_delete : Queue → Queue × Bool
unfolding queue_clear
queue_delete q = (queue_clear q, ltb 0 (length q.processing))
