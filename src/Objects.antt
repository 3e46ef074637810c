-- ===== src/Objects.antt =====
-- NSObject+MPExtensions: the inline functions of Feather/Sources/Categories/NSObject+MPExtensions.h, and
-- waiting in a run loop and the dispatching functions of NSObject+MPExtensions.m.
pub mod Ends
mod Tests
use Prim.Native.Nat.{bit_and}
use feather.Common.{
  ℕ, zero, suc, ◌+◌, Bool, true, false, ◌||◌, Option, none, some, List, [], ◌∷◌, if◌then◌else◌,
  ◌==◌, nat_eq,
}

-- MPNilToObject and MPNilToNSNull; nil is `none`.
unfoldable pub nil_to_object {ℓ} : {A : Type ℓ} → Option A → Option A → Option A
nil_to_object none default_object = default_object
nil_to_object (some a) default_object = some a

unfoldable pub nil_to_null {ℓ} : {A : Type ℓ} (null : A) → Option A → Option A
unfolding nil_to_object
nil_to_null null o = nil_to_object o (some null)

-- MPOptionIsOn.
unfoldable pub option_is_on : ℕ → ℕ → Bool
option_is_on flags flag = if flag == 0 then true else bit_and flags flag == flag

-- What happens while the run loop runs: the block's argument is called, or the timer fires that
-- `dispatch_after` has set.
pub data Event : Type 0 where
  done_called : Event
  timer_fired : Event

-- The variable `done`, and how often the timeout block ran.
pub record Waiting : Type 0 where
  pub is_done : Bool
  pub timeouts : ℕ

pub happen : Event → Waiting → Waiting
happen done_called w = record w { is_done = true }
happen timer_fired w = if w.is_done then w else record { is_done = true; timeouts = w.timeouts + 1 }

-- One `runUntilDate:`, in which events happen in some order.
pub poll : List Event → Waiting → Waiting
unfolding happen
poll [] w = w
poll (e ∷ es) w = poll es (happen e w)

-- The `while` loop from its given round on, with the events of each round and a bound on the rounds: the
-- rounds made, and what is left, or `none` where the bound is reached.
pub spin : (ℕ → List Event) → ℕ → ℕ → Waiting → Option (ℕ × Waiting)
unfolding poll
spin events zero k w = if w.is_done then some (k, w) else none
spin events (suc fuel) k w =
    let later = spin events fuel (k + 1) (poll (events k) w) in
    if w.is_done then some (k, w) else later

-- `runUntilDone:withTimeout:timeoutBlock:`, and `runUntilDone:` where no timer fires. The block may call
-- its argument before the loop begins.
unfoldable pub run_until_done : (ℕ → List Event) → ℕ → (at_once : Bool) → Option (ℕ × Waiting)
unfolding spin
run_until_done events fuel at_once = spin events fuel 0 (record { is_done = at_once; timeouts = 0 })

-- Where a block runs.
pub data Dispatch : Type 0 where
  here : Dispatch
  on_queue : Dispatch

-- `mp_dispatch_sync` and `mp_dispatch_async`, with the token that `dispatch_get_specific` finds for the
-- queue's key (0 where there is none), and a queue that is nil or not.
unfoldable pub dispatch : (queue_is_nil : Bool) → (found token : ℕ) → Dispatch
dispatch queue_is_nil found token = if found == token || queue_is_nil then here else on_queue
