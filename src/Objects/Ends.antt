-- ===== src/Objects/Ends.antt =====
-- Waiting in a run loop ends.
use feather.Common.{
  ℕ, zero, suc, ◌+◌, ◌≤◌, ◌<◌, ◌≡◌, refl, ◌∙◌, Bool, true, false, some, List, [], ◌∷◌,
  if◌then◌else◌, arith, Bool-cases, inl, inr,
}
use feather.Objects.{Event, done_called, timer_fired, Waiting, happen, poll, spin, run_until_done}

-- The timer fires in a round.
abbrev pub fires : List Event → Bool
fires [] = false
fires (done_called ∷ es) = fires es
fires (timer_fired ∷ es) = true

-- The timeout block has run once at most, and not before waiting is done.
abbrev pub IsCounted : Waiting → Type 0
IsCounted w = w.timeouts ≤ (if w.is_done then 1 else 0)

happen-IsCounted : (e : Event) (w : Waiting) → IsCounted w → IsCounted (happen e w)
unfolding happen
happen-IsCounted done_called w h = ground arith
happen-IsCounted timer_fired w h = ground arith

poll-IsCounted : (es : List Event) (w : Waiting) → IsCounted w → IsCounted (poll es w)
unfolding poll
poll-IsCounted [] w h = h
poll-IsCounted (e ∷ es) w h = poll-IsCounted es (happen e w) (happen-IsCounted e w h)

poll-done : (es : List Event) (w : Waiting) → w.is_done ≡ true → poll es w ≡ w
unfolding poll happen
poll-done [] w h = refl
poll-done (done_called ∷ es) w h = ground (arith, h, poll-done es w h)
poll-done (timer_fired ∷ es) w h = ground (arith, h, poll-done es w h)

poll-fires : (es : List Event) (w : Waiting) → fires es ≡ true → (poll es w).is_done ≡ true
unfolding poll happen
poll-fires [] w h = cc
poll-fires (done_called ∷ es) w h = poll-fires es (record w { is_done = true }) h
poll-fires (timer_fired ∷ es) w h =
    let there : (happen timer_fired w).is_done ≡ true = ground arith in
    rw (poll-done es (happen timer_fired w) there) there

spin-done :
    (events : ℕ → List Event) (fuel k : ℕ) (w : Waiting)
    → w.is_done ≡ true
    → spin events fuel k w ≡ some (k, w)
unfolding spin
spin-done events zero k w h = ground (arith, h)
spin-done events (suc fuel) k w h = ground (arith, h)

spin-waiting :
    (events : ℕ → List Event) (fuel k : ℕ) (w : Waiting)
    → w.is_done ≡ false
    → spin events (suc fuel) k w ≡ spin events fuel (k + 1) (poll (events k) w)
unfolding spin
spin-waiting events fuel k w h = ground (arith, h)

-- From a round on, where the timer fires some rounds later.
spin_ends :
    (events : ℕ → List Event) (later fuel k : ℕ) (w : Waiting)
    → fires (events (k + later)) ≡ true
    → IsCounted w
    → later < fuel
    → (n : ℕ) × (end : Waiting) × (spin events fuel k w ≡ some (n, end))
      × (n ≤ k + later + 1)
      × (end.is_done ≡ true)
      × (end.timeouts ≤ 1)
spin_ends events later zero k w fired counted enough = absurd (omega arith)
spin_ends events zero (suc fuel) k w fired counted enough = elim (Bool-cases w.is_done) [
  | inl done ↦ (k, w, spin-done events (suc fuel) k w done, omega arith, done, ground arith)
  | inr waiting ↦
      let next = poll (events k) w in
      let ended = poll-fires (events k) w (let e : k + 0 ≡ k = omega arith in rw (← e) fired) in
      (
        k + 1,
        next,
        spin-waiting events fuel k w waiting ∙ spin-done events fuel (k + 1) next ended,
        omega arith,
        ended,
        ground (arith, poll-IsCounted (events k) w counted),
      )
]
spin_ends events (suc later) (suc fuel) k w fired counted enough = elim (Bool-cases w.is_done) [
  | inl done ↦ (k, w, spin-done events (suc fuel) k w done, omega arith, done, ground arith)
  | inr waiting ↦
      let e : k + suc later ≡ k + 1 + later = omega arith in
      let (n, end, runs, bound, ended, counted') =
        spin_ends events later fuel (k + 1) (poll (events k) w) (rw (← e) fired)
          (poll-IsCounted (events k) w counted) (omega arith) in
      (n, end, spin-waiting events fuel k w waiting ∙ runs, omega arith, ended, counted')
]

-- Waiting ends at the latest with the round in which the timer fires, whatever else happens and in
-- whatever order, given as many rounds: it is done then, and the timeout block has run at most once;
-- where the block is done at once, no round is made and the timeout block has not run.
pub run_until_done_ends :
    (events : ℕ → List Event) (limit fuel : ℕ) (at_once : Bool)
    → fires (events limit) ≡ true
    → limit < fuel
    → (n : ℕ) × (end : Waiting) × (run_until_done events fuel at_once ≡ some (n, end))
      × (n ≤ (if at_once then 0 else limit + 1))
      × (end.is_done ≡ true)
      × (end.timeouts ≤ (if at_once then 0 else 1))
unfolding run_until_done spin
run_until_done_ends events limit zero true fired enough = absurd (omega arith)
run_until_done_ends events limit (suc fuel) true fired enough =
    (0, record { is_done = true; timeouts = 0 }, refl, omega arith, refl, omega arith)
run_until_done_ends events limit fuel false fired enough =
    let e : 0 + limit ≡ limit = omega arith in
    let (n, end, runs, bound, done, counted) =
      spin_ends events limit fuel 0 (record { is_done = false; timeouts = 0 }) (rw e fired)
        (omega arith) enough in
    (n, end, runs, omega arith, done, counted)
