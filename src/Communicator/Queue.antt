-- ===== src/Communicator/Queue.antt =====
-- What holds of the notification queue of pdns/pdns/communicator.hh.
use powerdns_improved_lua.Prelude.{
  ℕ, ◌+◌, ◌-◌, ◌≤◌, ◌<◌, ◌≡◌, refl, ap, ◌⊎◌, inl, inr, ◌↔◌, Bool, true, false, [], ◌∷◌, ◌++◌, arith,
  Option, none, some, Bool-cases, Option-cases,
}
use native.Mathlib.Decide.{dec_lt}
use mathlib.Core.Path.{subst₂}
use powerdns_improved_lua.Name.{Bytes, bytes_eq_iff}
use powerdns_improved_lua.Communicator.{
  NotificationRequest, NotificationQueue, Due, add, answers, remove_if, attempted, get_one,
}

-- Between calls no request has been sent five times.
abbrev pub IsValid : NotificationQueue → Type 0
IsValid [] = Unit
IsValid (i ∷ queue) = (i.attempts ≤ 4) × IsValid queue

-- How often the requests of the queue can still be sent.
abbrev pub sends_left : NotificationQueue → ℕ
sends_left [] = 0
sends_left (i ∷ queue) = (5 - i.attempts) + sends_left queue

-- No request is due.
abbrev pub AllLater : ℕ → NotificationQueue → Type 0
AllLater now [] = Unit
AllLater now (i ∷ queue) = (now < i.next) × AllLater now queue

none-AllLater :
    (now : ℕ) (queue : NotificationQueue) → get_one now queue ≡ none → AllLater now queue
unfolding get_one
none-AllLater now [] e = tt
none-AllLater now (i ∷ queue) e = ground (arith, none-AllLater now queue)

AllLater-none :
    (now : ℕ) (queue : NotificationQueue) → AllLater now queue → get_one now queue ≡ none
unfolding get_one
AllLater-none now [] h = refl
AllLater-none now (i ∷ queue) h = ground (arith, AllLater-none now queue)

-- `getOne` finds nothing exactly when no request is due.
pub get_one-none_iff :
    (now : ℕ) (queue : NotificationQueue) → (get_one now queue ≡ none) ↔ AllLater now queue
get_one-none_iff now queue = (none-AllLater now queue, AllLater-none now queue)

-- A call on the first request that is due, with the queue before and behind it.
pub data Hands (now : ℕ) : NotificationQueue → Due → NotificationQueue → Type 0 where
  again :
      (i : NotificationRequest) (queue : NotificationQueue)
      → i.next ≤ now
      → i.attempts < 4
      → Hands now
          (i ∷ queue)
          (record { domain = i.domain; ip = i.ip; id = i.id; purged = false })
          (attempted now i ∷ queue)
  last :
      (i : NotificationRequest) (queue : NotificationQueue)
      → i.next ≤ now
      → 4 ≤ i.attempts
      → Hands now
          (i ∷ queue)
          (record { domain = i.domain; ip = i.ip; id = i.id; purged = true })
          queue
  later :
      (i : NotificationRequest) (queue : NotificationQueue) (due : Due) (queue' : NotificationQueue)
      → now < i.next
      → Hands now queue due queue'
      → Hands now (i ∷ queue) due (i ∷ queue')

get_one_later :
    (now : ℕ) (i : NotificationRequest) (queue : NotificationQueue)
    → now < i.next
    → get_one now (i ∷ queue)
      ≡ elim (get_one now queue) [ none ↦ none | some (d, queue') ↦ some (d, i ∷ queue') ]
unfolding get_one
get_one_later now i queue h = ground arith

get_one_again :
    (now : ℕ) (i : NotificationRequest) (queue : NotificationQueue)
    → i.next ≤ now
    → i.attempts < 4
    → get_one now (i ∷ queue)
      ≡ some (
        record { domain = i.domain; ip = i.ip; id = i.id; purged = false },
        attempted now i ∷ queue,
      )
unfolding get_one
get_one_again now i queue h k = ground arith

get_one_last :
    (now : ℕ) (i : NotificationRequest) (queue : NotificationQueue)
    → i.next ≤ now
    → 4 ≤ i.attempts
    → get_one now (i ∷ queue)
      ≡ some (record { domain = i.domain; ip = i.ip; id = i.id; purged = true }, queue)
unfolding get_one
get_one_last now i queue h k = ground arith

Hands-here :
    (now : ℕ) (i : NotificationRequest) (queue : NotificationQueue)
    → i.next ≤ now
    → (due : Due) × (queue' : NotificationQueue) × (get_one now (i ∷ queue) ≡ some (due, queue'))
      × Hands now (i ∷ queue) due queue'
Hands-here now i queue h = elim (dec_lt i.attempts 4) [
  | yes k ↦ (_, _, get_one_again now i queue h k, again i queue h k)
  | no k ↦ (_, _, get_one_last now i queue h (omega arith), last i queue h (omega arith))
]

same_result :
    {o : Option (Due × NotificationQueue)} (now : ℕ) (queue : NotificationQueue) {d d' : Due}
    {q q' : NotificationQueue}
    → o ≡ some (d, q)
    → o ≡ some (d', q')
    → Hands now queue d q
    → Hands now queue d' q'
same_result now queue {d} {d'} {q} {q'} h k hands =
    let first : d ≡ d' = cc in
    let second : q ≡ q' = cc in subst₂ (Hands now queue) first second hands

-- `getOne` hands out the first request that is due. Before its fifth time it stays in its place with
-- one attempt more and a later time; the fifth time it leaves the queue, and is reported as purged.
-- The requests before and behind it stay as they are.
pub get_one-Hands :
    (now : ℕ) (queue : NotificationQueue) (due : Due) (queue' : NotificationQueue)
    → get_one now queue ≡ some (due, queue')
    → Hands now queue due queue'
get_one-Hands now [] due queue' e = unfold get_one in cc
get_one-Hands now (i ∷ queue) due queue' e = elim (dec_lt now i.next) [
  | no h ↦
      let (d, q, found, hands) = Hands-here now i queue (omega arith) in
      same_result now (i ∷ queue) found e hands
  | yes h ↦ elim (Option-cases (get_one now queue)) [
    | inl nothing ↦
        let here : get_one now (i ∷ queue) ≡ none =
          rw (get_one_later now i queue h, nothing) refl in
        cc
    | inr ((d, q), found) ↦
        let here : get_one now (i ∷ queue) ≡ some (d, i ∷ q) =
          rw (get_one_later now i queue h, found) refl in
        same_result now (i ∷ queue) here e (later i queue d q h (get_one-Hands now queue d q found))
  ]
]

Hands-sends_left :
    {now : ℕ} {queue : NotificationQueue} {due : Due} {queue' : NotificationQueue}
    → Hands now queue due queue'
    → IsValid queue
    → IsValid queue' × (sends_left queue' + 1 ≡ sends_left queue)
unfolding attempted
Hands-sends_left (again i queue h k) (v, vs) = ((omega arith, vs), omega arith)
Hands-sends_left (last i queue h k) (v, vs) = (vs, omega arith)
Hands-sends_left (later i queue due queue' h hands) (v, vs) =
    let (valid, sends) = Hands-sends_left hands vs in ((v, valid), omega arith)

-- Each request that `getOne` hands out costs one of the sends that are left, five for each new
-- request, and a valid queue stays valid: no request is sent more than five times.
pub get_one-sends_left :
    (now : ℕ) (queue : NotificationQueue) (due : Due) (queue' : NotificationQueue)
    → IsValid queue
    → get_one now queue ≡ some (due, queue')
    → IsValid queue' × (sends_left queue' + 1 ≡ sends_left queue)
get_one-sends_left now queue due queue' v e =
    Hands-sends_left (get_one-Hands now queue due queue' e) v

-- A new request stands last, can be sent five times, and keeps the queue valid.
pub add_lem :
    (random now : ℕ) (domain ip : Bytes) (queue : NotificationQueue)
    → IsValid queue
    → IsValid (add random now domain ip queue)
      × (sends_left (add random now domain ip queue) ≡ sends_left queue + 5)
unfolding add
add_lem random now domain ip [] v = omega arith
add_lem random now domain ip (i ∷ queue) (v, vs) =
    let (valid, sends) = add_lem random now domain ip queue vs in ((v, valid), omega arith)

-- No request of the list has the id, the address and the domain.
abbrev pub NoneAnswers : Bytes → ℕ → Bytes → NotificationQueue → Type 0
NoneAnswers remote id domain [] = Unit
NoneAnswers remote id domain (i ∷ queue) =
    (answers remote id domain i ≡ false) × NoneAnswers remote id domain queue

answers-eq :
    (remote : Bytes) (id : ℕ) (domain : Bytes) (i : NotificationRequest)
    → answers remote id domain i ≡ true
    → (i.id ≡ id) × (i.ip ≡ remote) × (i.domain ≡ domain)
unfolding answers
answers-eq remote id domain i h =
    ground (arith, bytes_eq_iff i.ip remote, bytes_eq_iff i.domain domain)

removed_here :
    (remote : Bytes) (id : ℕ) (domain : Bytes) (i : NotificationRequest) (queue : NotificationQueue)
    → answers remote id domain i ≡ true
    → remove_if remote id domain (i ∷ queue) ≡ (true, queue)
unfolding remove_if
removed_here remote id domain i queue h = ground arith

removed_later :
    (remote : Bytes) (id : ℕ) (domain : Bytes) (i : NotificationRequest) (queue : NotificationQueue)
    (found : Bool) (rest : NotificationQueue)
    → answers remote id domain i ≡ false
    → remove_if remote id domain queue ≡ (found, rest)
    → remove_if remote id domain (i ∷ queue) ≡ (found, i ∷ rest)
unfolding remove_if
removed_later remote id domain i queue found rest h e = ground arith

-- `removeIf` either finds no request with the id, the address and the domain, and changes nothing,
-- or takes out the first of them.
pub remove_if_cases :
    (remote : Bytes) (id : ℕ) (domain : Bytes) (queue : NotificationQueue)
    → (NoneAnswers remote id domain queue × (remove_if remote id domain queue ≡ (false, queue)))
      ⊎ ((before : NotificationQueue) × (i : NotificationRequest) × (behind : NotificationQueue)
          × (queue ≡ before ++ (i ∷ behind))
          × NoneAnswers remote id domain before
          × ((i.id ≡ id) × (i.ip ≡ remote) × (i.domain ≡ domain))
          × (remove_if remote id domain queue ≡ (true, before ++ behind)))
remove_if_cases remote id domain [] = inl (tt, unfold remove_if in refl)
remove_if_cases remote id domain (i ∷ queue) = elim (Bool-cases (answers remote id domain i)) [
  | inl hit ↦ inr (
    [],
    i,
    queue,
    refl,
    tt,
    answers-eq remote id domain i hit,
    removed_here remote id domain i queue hit,
  )
  | inr miss ↦ elim (remove_if_cases remote id domain queue) [
    | inl (nobody, e) ↦
        inl ((miss, nobody), removed_later remote id domain i queue false queue miss e)
    | inr (before, j, behind, split, nobody, same, e) ↦ inr (
      i ∷ before,
      j,
      behind,
      ap (◌∷◌ i) split,
      (miss, nobody),
      same,
      removed_later remote id domain i queue true (before ++ behind) miss e,
    )
  ]
]
