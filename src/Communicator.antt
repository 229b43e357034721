-- ===== src/Communicator.antt =====
-- The notification queue of the master: `NotificationQueue` in pdns/pdns/communicator.hh.
pub mod Queue
use powerdns_improved_lua.Prelude.{
  ℕ, ◌+◌, ◌-◌, ◌%◌, ◌^◌, ◌≤◌, Bool, true, false, not, ◌&&◌, List, [], ◌∷◌, ◌++◌, leb, ltb, ◌==◌,
  if◌then◌else◌, Option, none, some, min,
}
use powerdns_improved_lua.Name.{Bytes, bytes_eq}

pub record NotificationRequest : Type 0 where
  pub domain : Bytes
  pub ip : Bytes
  pub attempts : ℕ
  pub id : ℕ
  pub next : ℕ

abbrev pub NotificationQueue : Type 0
NotificationQueue = List NotificationRequest

-- `random` is the value of Utility::random, and `now` the time.
unfoldable pub add : ℕ → ℕ → Bytes → Bytes → NotificationQueue → NotificationQueue
add random now domain ip queue =
    queue
    ++ (record { domain = domain; ip = ip; attempts = 0; id = random % 0xffff; next = now } ∷ [])

-- The test of `removeIf`.
unfoldable pub answers : Bytes → ℕ → Bytes → NotificationRequest → Bool
answers remote id domain i = (i.id == id && bytes_eq i.ip remote) && bytes_eq i.domain domain

unfoldable pub remove_if : Bytes → ℕ → Bytes → NotificationQueue → Bool × NotificationQueue
remove_if remote id domain [] = (false, [])
remove_if remote id domain (i ∷ queue) =
    let (found, rest) = remove_if remote id domain queue in
    if answers remote id domain i then (true, queue) else (found, i ∷ rest)

-- What `getOne` hands out: the name and the address, the id, and whether this was the last time.
pub record Due : Type 0 where
  pub domain : Bytes
  pub ip : Bytes
  pub id : ℕ
  pub purged : Bool

-- The request as `getOne` leaves it, one attempt later.
unfoldable pub attempted : ℕ → NotificationRequest → NotificationRequest
attempted now i = record i { attempts = i.attempts + 1; next = now + 1 + 2 ^ (i.attempts + 1) }

-- `none` is the result false. The clock is read once for each call.
unfoldable pub get_one : ℕ → NotificationQueue → Option (Due × NotificationQueue)
unfolding attempted
get_one now [] = none
get_one now (i ∷ queue) =
    let sent : NotificationRequest = attempted now i in
    let purged = ltb 4 sent.attempts in
    let due : Due = record { domain = i.domain; ip = i.ip; id = i.id; purged = purged } in
    let rest : Option (Due × NotificationQueue) = elim (get_one now queue) [
      | none ↦ none
      | some (d, queue') ↦ some (d, i ∷ queue')
    ] in
    if leb i.next now then some (due, (if purged then queue else sent ∷ queue)) else rest
