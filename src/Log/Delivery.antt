-- ===== src/Log/Delivery.antt =====
-- Where a message goes in src/log.c.
use khttp.Common.{
  ℕ, ◌-◌, ◌≡◌, refl, ◌≢◌, ◌⊎◌, inl, inr, true, none, some, List, [], ◌∷◌, ◌++◌, arith, leb, ◌==◌,
  if◌then◌else◌, Bool-cases, if_cases, All-append, Option, take, All, Bytes,
}
use khttp.Log.{
  LogLevel, ldebug, linfo, lwarning, lerror, lfatal, level_bit, log_length, Log, LogRegister,
  LogOutput, to_log, to_stderr, has_level, log_write, log_register_get, register_loop,
  log_register_write, started, start_logs,
}

abbrev pub Running : LogRegister → Type 0
Running e = e.l.running ≡ true

-- The address of a registered log.
abbrev pub Among : List LogRegister → ℕ → Type 0
Among [] address = ⊥
Among (e ∷ es) address = (e.l.address ≡ address) ⊎ Among es address

-- The output is the message, with its level and in the pipe of a registered log, or on stderr.
abbrev pub Carries : List LogRegister → LogLevel → Bytes → LogOutput → Type 0
Carries register level message (to_stderr m) = m ≡ message
Carries register level message (to_log address lv m) =
    Among register address × (lv ≡ level) × (m ≡ message)

-- There is an output, and every output is the message.
abbrev pub Kept : List LogRegister → LogLevel → Bytes → List LogOutput → Type 0
Kept register level message outputs = (outputs ≢ []) × All (Carries register level message) outputs

Carries-wider :
    (e : LogRegister) (es : List LogRegister) (level : LogLevel) (message : Bytes) (o : LogOutput)
    → Carries es level message o
    → Carries (e ∷ es) level message o
Carries-wider e es level message (to_stderr m) h = h
Carries-wider e es level message (to_log address lv m) (at, lv_same, m_same) =
    (inr at, lv_same, m_same)

All-wider :
    (e : LogRegister) (es : List LogRegister) (level : LogLevel) (message : Bytes)
    (os : List LogOutput)
    → All (Carries es level message) os
    → All (Carries (e ∷ es) level message) os
All-wider e es level message [] h = tt
All-wider e es level message (o ∷ os) (here, later) =
    (Carries-wider e es level message o here, All-wider e es level message os later)

-- Writing to no log, or to a registered one that runs.
data Target (register : List LogRegister) : Option Log → Type 0 where
  no_log : Target register none
  runs : (l : Log) → Among register l.address → l.running ≡ true → Target register (some l)

Target-wider :
    (e : LogRegister) {es : List LogRegister} (o : Option Log) → Target es o → Target (e ∷ es) o
Target-wider e _ no_log = no_log
Target-wider e _ (runs l at r) = runs l (inr at) r

log_write-Kept :
    (register : List LogRegister) (level : LogLevel) (message : Bytes) (o : Option Log)
    → Target register o
    → Kept register level message (log_write o level message)
unfolding log_write
log_write-Kept register level message _ no_log = ((λ e. ground (arith, e)), (refl, tt))
log_write-Kept register level message _ (runs l at r) =
    if_cases (Kept register level message) l.running
      (λ h. ((λ e. ground (arith, e)), ((at, refl, refl), tt))) (λ h. absurd (ground (arith, h, r)))

get_loop-Target :
    (register : List LogRegister)
    → All Running register
    → Target register (log_register_get register none)
unfolding log_register_get
get_loop-Target [] h = no_log
get_loop-Target (e ∷ es) (here, later) =
    if_cases (Target (e ∷ es)) e.def (λ d. runs e.l (inl refl) here)
      (λ d. Target-wider e _ (get_loop-Target es later))

-- Every output of the loop is the message.
register_loop-All :
    (register : List LogRegister) (level : LogLevel) (message : Bytes)
    → All Running register
    → All (Carries register level message) (register_loop register level message).0
unfolding register_loop
register_loop-All [] level message h = tt
register_loop-All (e ∷ es) level message (here, later) =
    let wide = Carries (e ∷ es) level message in
    let rest = All-wider e es level message _ (register_loop-All es level message later) in
    let (_, first) = log_write-Kept (e ∷ es) level message _ (runs e.l (inl refl) here) in
    if_cases (λ (r : List LogOutput × ℕ). All wide r.0) (has_level e.levels level)
      (λ m. All-append wide _ _ first rest) (λ m. rest)

register_loop-some :
    (register : List LogRegister) (level : LogLevel) (message : Bytes)
    → All Running register
    → ((register_loop register level message).1 ≡ 0)
      ⊎ ((register_loop register level message).0 ≢ [])
unfolding register_loop log_write
register_loop-some [] level message h = inl refl
register_loop-some (e ∷ es) level message (here, later) =
    elim (Bool-cases (has_level e.levels level)) [
      | inl m ↦ inr (ground (arith, m, here))
      | inr m ↦ rw (m, register_loop) (register_loop-some es level message later)
    ]

append-right {ℓ} : {A : Type ℓ} (xs ys : List A) → ys ≢ [] → xs ++ ys ≢ []
append-right [] ys h e = h e
append-right (x ∷ xs) ys h e = ground (arith, e)

-- When every registered log runs, a message, cut off at 255 bytes, is put out at least once, each
-- time with its level into the pipe of a registered log or to stderr, and nothing else is put out.
pub register_write-Kept :
    (register : List LogRegister) (level : LogLevel) (text : Bytes)
    → All Running register
    → Kept register level (take 255 text) (log_register_write register level text)
unfolding log_register_write
register_write-Kept register level text h =
    let message = take 255 text in
    let outputs = (register_loop register level message).0 in
    let sound = register_loop-All register level message h in
    let (some_output, last) =
      log_write-Kept register level message _ (get_loop-Target register h) in
    if_cases (Kept register level message) ((register_loop register level message).1 == 0)
      (λ e. (
        append-right outputs _ some_output,
        All-append (Carries register level message) outputs _ sound last,
      ))
      (λ e. elim (register_loop-some register level message h) [
        | inl nothing ↦ absurd (ground (arith, e, nothing))
        | inr here ↦ (here, sound)
      ])

-- With the two logs that `server_start` registers, both started, every message is put into the pipe
-- of just one log, cut off at 255 bytes: that of stderr from warnings on, and that of stdout below.
pub start_logs-once :
    (err out : ℕ) (level : LogLevel) (text : Bytes)
    → log_register_write (start_logs started started err out) level text
      ≡ to_log
          (if leb (level_bit lwarning) (level_bit level) then err else out)
          level
          (take (log_length - 1) text)
        ∷ []
unfolding start_logs log_register_write
start_logs-once err out ldebug text = refl
start_logs-once err out linfo text = refl
start_logs-once err out lwarning text = refl
start_logs-once err out lerror text = refl
start_logs-once err out lfatal text = refl
