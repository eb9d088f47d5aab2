-- ===== src/Log/Defaults.antt =====
-- The default log in the register of src/log.c.
use khttp.Common.{
  ℕ, ◌+◌, ◌≤◌, ◌≡◌, refl, ap, Bool, true, false, none, some, List, [], ◌∷◌, ◌++◌, arith,
  if◌then◌else◌,
}
use khttp.Log.{
  Log, LogRegister, StartAnswer, log_start, get_loop, log_register_get, reset_defaults,
  log_register_add, log_register_remove,
}

-- How many entries are marked as the default.
abbrev pub defaults : List LogRegister → ℕ
defaults [] = 0
defaults (e ∷ es) = let n = defaults es in if e.def then n + 1 else n

-- A register that came about by additions and removals.
pub data Built : List LogRegister → Type 0 where
  none_yet : Built []
  added :
      {register : List LogRegister} (answer : StartAnswer) (l : Log) (def : Bool) (levels : ℕ)
      → Built register
      → Built (log_register_add register answer l def levels).0
  removed :
      {register : List LogRegister} (address : ℕ)
      → Built register
      → Built (log_register_remove register address)

defaults-append : (xs ys : List LogRegister) → defaults (xs ++ ys) ≡ defaults xs + defaults ys
defaults-append [] ys = omega arith
defaults-append (e ∷ es) ys = ground (arith, defaults-append es ys)

defaults-reset : (xs : List LogRegister) → defaults (reset_defaults xs) ≡ 0
defaults-reset [] = refl
defaults-reset (e ∷ es) = defaults-reset es

defaults-remove_le :
    (xs : List LogRegister) (address : ℕ) → defaults (log_register_remove xs address) ≤ defaults xs
unfolding log_register_remove
defaults-remove_le [] address = omega arith
defaults-remove_le (e ∷ es) address = ground (arith, defaults-remove_le es address)

get_loop-reset :
    (xs : List LogRegister) (e : LogRegister)
    → e.def ≡ true
    → get_loop none (reset_defaults xs ++ e ∷ []) none ≡ some e.l
unfolding get_loop
get_loop-reset [] e d = ap (λ b. if b then some e.l else none) d
get_loop-reset (x ∷ xs) e d = get_loop-reset xs e d

at_most_one : {register : List LogRegister} → Built register → defaults register ≤ 1
unfolding log_register_add
at_most_one none_yet = omega arith
at_most_one (added {register} answer l true levels b) =
    omega (arith, defaults-append (reset_defaults register) (_ ∷ []), defaults-reset register)
at_most_one (added {register} answer l false levels b) =
    omega (arith, defaults-append register (_ ∷ []), at_most_one b)
at_most_one (removed {register} address b) =
    omega (arith, defaults-remove_le register address, at_most_one b)

-- However logs have been added to the register and removed from it, at most one entry is marked as
-- the default; and a log that is then added as the default is the one that a look-up without a name
-- finds, whether or not it could be started.
pub Built-default :
    {register : List LogRegister}
    → Built register
    → (defaults register ≤ 1)
      × ((answer : StartAnswer) (l : Log) (levels : ℕ)
          → log_register_get (log_register_add register answer l true levels).0 none
            ≡ some (log_start register answer l).0)
unfolding log_register_add log_register_get
Built-default {register} b = (at_most_one b, λ answer l levels. get_loop-reset register _ refl)
