-- ===== src/Loop/Read/Once.antt =====
-- How often the loop of src/server-loop-read.c reads.
use khttp.Common.{
  ℕ, ◌≡◌, refl, true, false, Option, some, List, [], ◌∷◌, ◌++◌, bind_inv, some_inj, length, Bytes,
  codes,
}
use khttp.Queue.{QueueItem}
use khttp.Connection.{Connection, Pools, pool_add, pool_write}
use khttp.Loop.Read.{
  Execution, ReadAnswer, received, end_of_file, read_blocked, read_fails, Round, read_loop,
  after_parse,
}
use khttp.Reader.{feed}

-- The write queue ends with an item for that connection that a thread can take.
abbrev pub Announced : ℕ → Pools → Type 0
Announced address pools =
    (before : List QueueItem) × (item : QueueItem) × (pools.write.list ≡ before ++ item ∷ [])
    × (item.ptr ≡ address)
    × (item.tag ≡ codes "RESP")
    × (item.blocked ≡ false)

pool_add-Announced :
    (pools : Pools) (address : ℕ)
    → Announced address (pool_add pools pool_write (codes "RESP") address)
unfolding pool_add
pool_add-Announced pools address = (pools.write.list, _, refl, refl, refl, refl)

-- A round of the read loop reads at most once: whatever the socket would answer to further reads,
-- they are not made.
pub read_loop-once :
    (page : Option Bytes) (answer : ReadAnswer) (later : List ReadAnswer) (conn : Connection)
    (pools : Pools)
    → read_loop page (answer ∷ later) conn pools ≡ read_loop page (answer ∷ []) conn pools
unfolding read_loop
read_loop-once page (received buffer x) later conn pools = refl
read_loop-once page end_of_file later conn pools = refl
read_loop-once page read_blocked later conn pools = refl
read_loop-once page read_fails later conn pools = refl

-- A round that receives bytes and returns has ended, does not mark its item as blocked, and has put
-- an item for the connection at the end of the write queue, an error or not.
pub received-Announced :
    (page : Option Bytes) (buffer : Bytes) (x : Execution) (conn : Connection) (pools : Pools)
    (round : Round)
    → read_loop page (received buffer x ∷ []) conn pools ≡ some round
    → (round.ended ≡ true) × (round.blocked ≡ false) × Announced round.conn.address round.pools
unfolding read_loop
received-Announced page buffer x conn pools round e =
    let ((s, _), _, e1) = bind_inv (feed x.parser x.events conn.parse_state) _ e in
    let ((conn', pools', _), _, e2) =
      bind_inv (after_parse page (length buffer) x (record conn { parse_state = s }) pools) _ e1 in
    rw (← some_inj e2) (refl, refl, pool_add-Announced pools' conn'.address)
