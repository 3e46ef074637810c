-- ===== src/Objects/Tests.antt =====
-- Tests of the functions on objects and of waiting.
use feather.Common.{
  ℕ, ◌+◌, ◌≤◌, ◌≡◌, refl, ◌==◌, nat_eq, true, false, none, some, List, [], ◌∷◌, if◌then◌else◌,
  arith,
}
use feather.Objects.{
  Event, done_called, timer_fired, Waiting, run_until_done, option_is_on, nil_to_object, dispatch,
  here, on_queue,
}
use feather.Objects.Ends.{run_until_done_ends}

-- The timer fires in the fourth round, in which the block calls its argument too.
abbrev events : ℕ → List Event
events k = if k == 3 then done_called ∷ timer_fired ∷ [] else []

run_until_done_ends_example :
    (n : ℕ) × (end : Waiting) × (run_until_done events 10 false ≡ some (n, end))
    × (n ≤ (if false then 0 else 3 + 1))
    × (end.is_done ≡ true)
    × (end.timeouts ≤ (if false then 0 else 1))
run_until_done_ends_example = run_until_done_ends events 3 10 false refl (omega arith)

called_first : run_until_done events 10 false ≡ some (4, record { is_done = true; timeouts = 0 })
unfolding run_until_done
called_first = refl

never : run_until_done (λ k. []) 10 false ≡ none
unfolding run_until_done
never = refl

both_bits : option_is_on 7 5 ≡ true
unfolding option_is_on
both_bits = refl

one_bit : option_is_on 4 5 ≡ false
unfolding option_is_on
one_bit = refl

no_token : dispatch false 0 0 ≡ here
unfolding dispatch
no_token = refl

other_token : dispatch false 0 7 ≡ on_queue
unfolding dispatch
other_token = refl

given : nil_to_object {A = ℕ} none (some 7) ≡ some 7
unfolding nil_to_object
given = refl
