-- ===== src/Tests/StateTests.antt =====
-- The notification queue and the throttle: runs and instances.
use powerdns_improved_lua.Prelude.{
  ℕ, ◌+◌, ◌^◌, ◌≡◌, refl, true, false, [], ◌∷◌, ◌++◌, arith, none, some, replicate,
}
use native.Mathlib.Decide.{ℕ_discrete}
use powerdns_improved_lua.Name.{Bytes}
use powerdns_improved_lua.Communicator.{
  NotificationRequest, NotificationQueue, Due, attempted, get_one,
}
use powerdns_improved_lua.Communicator.Queue.{
  IsValid, sends_left, Hands, get_one-Hands, get_one-sends_left,
}
use powerdns_improved_lua.Throttle.{Throttle, find, throttle}
use powerdns_improved_lua.Throttle.Blocks.{ask, throttle_blocks}

abbrev example_nl : Bytes
example_nl = b'n' ∷ b'l' ∷ []

abbrev slave : Bytes
slave = b':' ∷ b':' ∷ b'1' ∷ []

abbrev waiting : NotificationRequest
waiting = record { domain = example_nl; ip = slave; attempts = 1; id = 7; next = 200 }

abbrev fresh : NotificationRequest
fresh = record { domain = example_nl; ip = slave; attempts = 0; id = 9; next = 100 }

abbrev queue : NotificationQueue
queue = waiting ∷ fresh ∷ []

abbrev queue_later : NotificationQueue
queue_later = waiting ∷ record fresh { attempts = 1; next = 153 } ∷ []

abbrev due : Due
due = record { domain = example_nl; ip = slave; id = 9; purged = false }

get_one_run : get_one 150 queue ≡ some (due, queue_later)
unfolding get_one attempted
get_one_run = refl

get_one-Hands_example : Hands 150 queue due queue_later
get_one-Hands_example = get_one-Hands 150 queue due queue_later get_one_run

get_one-sends_left_example : IsValid queue_later × (sends_left queue_later + 1 ≡ sends_left queue)
get_one-sends_left_example = get_one-sends_left 150 queue due queue_later (omega arith) get_one_run

-- Things are numbers here.
abbrev nothing_blocked : Throttle ℕ
nothing_blocked = record { limit = 3; ttl = 60; last_clean = 1000; cont = [] }

nothing_blocked_run : find ℕ_discrete 7 nothing_blocked.cont ≡ none
unfolding find
nothing_blocked_run = refl

throttle_blocks_example :
    ask ℕ_discrete 1010 7 5 (throttle ℕ_discrete 1000 7 20 2 nothing_blocked)
    ≡ replicate 3 true ++ (true ∷ false ∷ [])
throttle_blocks_example =
    throttle_blocks ℕ_discrete 1010 7 1000 20 2 nothing_blocked nothing_blocked_run (omega arith)
      (omega arith) (omega arith)

-- A number of tries that is no int.
throttle_huge_run :
    ask ℕ_discrete 1010 7 2 (throttle ℕ_discrete 1000 7 20 (2 ^ 31) nothing_blocked)
    ≡ true ∷ false ∷ []
throttle_huge_run =
    throttle_blocks ℕ_discrete 1010 7 1000 20 (2 ^ 31) nothing_blocked nothing_blocked_run
      (omega arith) (omega arith) (omega arith)
