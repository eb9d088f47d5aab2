-- ===== src/Log.antt =====
-- The logs of src/log.c and src/log.h and their register. A log is known by its address; each is
-- registered once at most, so that an entry of the register has the log itself. The thread of a log
-- prints what it reads from the log's pipe; what goes into the pipes is a list.
pub mod Defaults
pub mod Delivery
pub mod Examples
use khttp.Common.{
  ℕ, ◌+◌, ◌-◌, ◌/◌, ◌%◌, ◌^◌, Bool, true, false, Option, none, some, List, [], ◌∷◌, ◌++◌, ◌==◌,
  if◌then◌else◌, take, Bytes, codes, str_case_eq,
}

pub data LogLevel : Type 0 where
  ldebug linfo lwarning lerror lfatal : LogLevel

abbrev pub level_bit : LogLevel → ℕ
level_bit ldebug = 2 ^ 0
level_bit linfo = 2 ^ 1
level_bit lwarning = 2 ^ 2
level_bit lerror = 2 ^ 3
level_bit lfatal = 2 ^ 4

abbrev pub lall : ℕ
lall = level_bit ldebug + level_bit linfo + level_bit lwarning + level_bit lerror + level_bit lfatal

abbrev pub log_level_name : LogLevel → Bytes
log_level_name ldebug = codes "DEBUG"
log_level_name linfo = codes "INFO"
log_level_name lwarning = codes "WARNING"
log_level_name lerror = codes "ERROR"
log_level_name lfatal = codes "FATAL"

abbrev pub log_length : ℕ
log_length = 256

pub record Log : Type 0 where
  pub address : ℕ
  pub name : Bytes
  pub running : Bool

pub record LogRegister : Type 0 where
  pub l : Log
  pub def : Bool
  pub levels : ℕ

-- A message printed to stderr, or put into the pipe of the log at an address.
pub data LogOutput : Type 0 where
  to_stderr : Bytes → LogOutput
  to_log : ℕ → LogLevel → Bytes → LogOutput

unfoldable pub log_new : ℕ → Bytes → Log
log_new address name = record { address = address; name = name; running = false }

-- (levels & level) == level
unfoldable pub has_level : ℕ → LogLevel → Bool
has_level levels level = (levels / level_bit level) % 2 == 1

unfoldable pub log_write : Option Log → LogLevel → Bytes → List LogOutput
log_write none level message = to_stderr message ∷ []
log_write (some l) level message = if l.running then to_log l.address level message ∷ [] else []

-- The loop of `log_register_get`, with `def` so far.
unfoldable pub get_loop : Option Bytes → List LogRegister → Option Log → Option Log
get_loop name [] def = def
get_loop none (e ∷ es) def = let rest = get_loop none es def in if e.def then some e.l else rest
get_loop (some name) (e ∷ es) def =
    let rest = get_loop (some name) es (if e.def then some e.l else def) in
    if str_case_eq name e.l.name then some e.l else rest

unfoldable pub log_register_get : List LogRegister → Option Bytes → Option Log
unfolding get_loop
log_register_get register name = get_loop name register none

-- The loop of `log_register_write`, with its `count`.
unfoldable pub register_loop : List LogRegister → LogLevel → Bytes → List LogOutput × ℕ
unfolding has_level log_write
register_loop [] level message = ([], 0)
register_loop (e ∷ es) level message =
    let (outputs, count) = register_loop es level message in
    if has_level e.levels level
    then (log_write (some e.l) level message ++ outputs, count + 1)
    else (outputs, count)

-- `text` is the formatted message, which `vsnprintf` cuts off.
unfoldable pub log_register_write : List LogRegister → LogLevel → Bytes → List LogOutput
unfolding register_loop log_register_get
log_register_write register level text =
    let message = take (log_length - 1) text in
    let (outputs, count) = register_loop register level message in
    if count == 0
    then outputs ++ log_write (log_register_get register none) level message
    else outputs

-- What pipe(2) and pthread_create answer.
pub data StartAnswer : Type 0 where
  started pipe_fails thread_fails : StartAnswer

-- The log, the result, and what a failure puts into the registered logs.
unfoldable pub log_start : List LogRegister → StartAnswer → Log → Log × Bool × List LogOutput
unfolding log_register_write
log_start register answer l = if l.running then (l, true, []) else (elim answer [
  | started ↦ (record l { running = true }, true, [])
  | pipe_fails ↦ (l, false, log_register_write register lerror (codes "Failed to create log pipe"))
  | thread_fails ↦
      (l, false, log_register_write register lerror (codes "Failed to create log thread"))
])

abbrev pub reset_defaults : List LogRegister → List LogRegister
reset_defaults [] = []
reset_defaults (e ∷ es) = record e { def = false } ∷ reset_defaults es

unfoldable pub log_register_add :
    List LogRegister → StartAnswer → Log → Bool → ℕ → List LogRegister × List LogOutput
unfolding log_start
log_register_add register answer l def levels =
    let (l', _, outputs) = log_start register answer l in
    let others = (if def then reset_defaults register else register) in
    (others ++ record { l = l'; def = def; levels = levels } ∷ [], outputs)

unfoldable pub log_register_remove : List LogRegister → ℕ → List LogRegister
log_register_remove [] address = []
log_register_remove (e ∷ es) address =
    let rest = log_register_remove es address in if e.l.address == address then es else e ∷ rest

-- Every log is stopped and deleted with its entry.
unfoldable pub log_register_clear : List LogRegister → List LogRegister
log_register_clear register = []

-- The line that the thread of a log prints for a message.
unfoldable pub log_line : Bytes → LogLevel → Bytes → Bytes
log_line time level message =
    codes "[" ++ time ++ codes "][" ++ log_level_name level ++ codes "] " ++ message ++ 10 ∷ []

-- The two logs that `server_start` of src/server.c registers.
unfoldable pub start_logs : StartAnswer → StartAnswer → ℕ → ℕ → List LogRegister
unfolding log_register_add log_new
start_logs answer1 answer2 err out =
    let (register, _) =
      log_register_add [] answer1 (log_new err (codes "stderr")) true
        (lall - (level_bit linfo + level_bit ldebug)) in
    (log_register_add register answer2 (log_new out (codes "stdout")) false
      (level_bit ldebug + level_bit linfo)).0
