-- ===== src/Queue/Fetch.antt =====
-- Which item `queue_fetchone` of src/queue.c hands out.
use khttp.Common.{
  ◌+◌, ◌-◌, ◌%◌, ◌<◌, ◌≡◌, refl, ap, ◌⊎◌, inl, inr, Bool, true, false, ◌&&◌, Option, none, some,
  List, [], ◌∷◌, ◌++◌, arith, ltb, ◌==◌, if◌then◌else◌, Bool-cases, All,
}
use khttp.Queue.{Queue, QueueItem, u64_mod, token_of, take_unblocked, fetch_locked, queue_fetchone}

-- What a search for an item that is not blocked can come to.
abbrev pub Taken : List QueueItem → Option (QueueItem × List QueueItem) → Type 0
Taken xs r =
    (All (λ x. x.blocked ≡ true) xs × (r ≡ none))
    ⊎ ((before : List QueueItem) × (item : QueueItem) × (after : List QueueItem) × (xs
          ≡ before ++ item ∷ after)
        × All (λ x. x.blocked ≡ true) before
        × (item.blocked ≡ false)
        × (r ≡ some (item, before ++ after)))

pub take_unblocked-Taken : (xs : List QueueItem) → Taken xs (take_unblocked xs)
unfolding take_unblocked
take_unblocked-Taken [] = inl (tt, refl)
take_unblocked-Taken (x ∷ xs) = elim (Bool-cases x.blocked) [
  | inr free ↦ inr ([], x, xs, refl, tt, free, ground arith)
  | inl held ↦ elim (take_unblocked-Taken xs) [
    | inl (all, e) ↦ inl ((held, all), ground arith)
    | inr (before, item, after, split, all, free, e) ↦
        inr (x ∷ before, item, after, ap (◌∷◌ x) split, (held, all), free, ground arith)
  ]
]

-- The result of a fetch from a queue: none, with nothing changed, or the first free item.
abbrev pub Fetched : Queue → Option QueueItem × Queue → Type 0
Fetched q r =
    (((q.count ≡ 0) ⊎ All (λ x. x.blocked ≡ true) q.list) × (r ≡ (none, q)))
    ⊎ ((0 < q.count)
        × ((before : List QueueItem) × (item : QueueItem) × (after : List QueueItem) × (q.list
              ≡ before ++ item ∷ after)
            × All (λ x. x.blocked ≡ true) before
            × (item.blocked ≡ false)
            × (r ≡ (
              some item,
              record {
                list = before ++ after;
                count = (q.count + u64_mod - 1) % u64_mod;
                processing = q.processing ++ token_of item ∷ [];
              },
            ))))

pub fetch_locked-Fetched : (q : Queue) → Fetched q (fetch_locked q)
unfolding fetch_locked
fetch_locked-Fetched q = elim (Bool-cases (ltb 0 q.count)) [
  | inr empty ↦ inl (inl (ground arith), rw (empty, fetch_locked))
  | inl some_left ↦ elim (take_unblocked-Taken q.list) [
    | inl (all, e) ↦ inl (inr all, simp (some_left, e))
    | inr (before, item, after, split, all, free, e) ↦
        inr (ground arith, (before, item, after, split, all, free, simp (some_left, e)))
  ]
]

-- `queue_fetchone` hands out the first item that is not blocked, in the order of the list, and
-- takes it off the list, lowers the counter by one modulo 2^64, and records a token of it at the
-- end of the processing list. It returns NULL and changes nothing more exactly when the counter is
-- zero or every item is blocked. The queue meant is the given one, or, for a blocking call on a
-- queue that counts no item, what the other threads made of it during the one wait.
pub queue_fetchone-Fetched :
    (wait : Queue → Queue) (q : Queue) (blocking : Bool)
    → Fetched (if (q.count == 0) && blocking then wait q else q) (queue_fetchone wait q blocking)
unfolding queue_fetchone
queue_fetchone-Fetched wait q blocking = fetch_locked-Fetched _
