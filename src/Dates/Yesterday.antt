-- ===== src/Dates/Yesterday.antt =====
-- What is called yesterday.
use feather.Common.{nat_eq, string_eq, list_eq, ℕ, ◌*◌, ◌≤◌, ◌<◌, ◌≡◌, ◌↔◌, arith}
use feather.Dates.{Direction, before_now, after_now, yesterday, Components, relative_date_string}

-- A date is called yesterday exactly where it is at least 24 and less than 48 hours from now, whether
-- it is before or after now.
pub relative_date_string-yesterday :
    (direction : Direction) (delta : ℕ) (components : Components)
    → (relative_date_string direction delta components ≡ yesterday)
      ↔ ((24 * 3600 ≤ delta) × (delta < 48 * 3600))
unfolding relative_date_string
relative_date_string-yesterday before_now delta components = ground arith
relative_date_string-yesterday after_now delta components = ground arith
