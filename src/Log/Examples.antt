-- ===== src/Log/Examples.antt =====
-- The theorems on the model of src/log.c at concrete logs.
use khttp.Common.{
  ℕ, ◌-◌, ◌≤◌, ◌≡◌, refl, true, false, none, some, List, [], ◌∷◌, leb, if◌then◌else◌, take, codes,
}
use khttp.Log.{
  Log, LogRegister, lerror, lwarning, to_log, StartAnswer, started, log_start, log_register_add,
  log_register_get, log_register_write, start_logs, level_bit, log_length,
}
use khttp.Log.Delivery.{Kept, register_write-Kept, start_logs-once}
use khttp.Log.Defaults.{Built, none_yet, added, defaults, Built-default}

abbrev a_log : Log
a_log = record { address = 8; name = codes "a"; running = false }

abbrev b_log : Log
b_log = record { address = 16; name = codes "b"; running = true }

abbrev two_logs : List LogRegister
two_logs = (log_register_add (log_register_add [] started a_log true 31).0 started b_log true 3).0

two_logs-Built : Built two_logs
two_logs-Built = added started b_log true 3 (added started a_log true 31 none_yet)

Built-default_example :
    (defaults two_logs ≤ 1)
    × ((answer : StartAnswer) (l : Log) (levels : ℕ)
        → log_register_get (log_register_add two_logs answer l true levels).0 none
          ≡ some (log_start two_logs answer l).0)
Built-default_example = Built-default two_logs-Built

abbrev one_log : List LogRegister
one_log = record { l = b_log; def = false; levels = 3 } ∷ []

register_write-Kept_example :
    Kept one_log lerror (take 255 (codes "no")) (log_register_write one_log lerror (codes "no"))
register_write-Kept_example = register_write-Kept one_log lerror (codes "no") (refl, tt)

start_logs-once_example :
    log_register_write (start_logs started started 8 16) lwarning (codes "oh")
    ≡ to_log
        (if leb (level_bit lwarning) (level_bit lwarning) then 8 else 16)
        lwarning
        (take (log_length - 1) (codes "oh"))
      ∷ []
start_logs-once_example = start_logs-once 8 16 lwarning (codes "oh")
