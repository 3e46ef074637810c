-- ===== src/Dates.antt =====
-- `relativeDateString` of Feather/Sources/Categories/NSDate+MPExtensions.m. The time between the date
-- and now is given by its direction and its whole seconds, which decide every test on it; the calendar's
-- components of it are parameters, being the calendar's.
pub mod Yesterday
mod Tests
use feather.Common.{ltb, leb, if◌then◌else◌, ◌==◌, nat_eq, string_eq, list_eq, ℕ, ◌*◌}

pub data Direction : Type 0 where
  before_now after_now : Direction

pub data Phrase : Type 0 where
  just_now minute hour yesterday : Phrase
  one_second one_month one_year : Phrase
  seconds minutes hours days months years : ℕ → Phrase

pub record Components : Type 0 where
  pub year : ℕ
  pub month : ℕ
  pub day : ℕ
  pub hour : ℕ
  pub minute : ℕ
  pub second : ℕ

-- The phrase; "ago" or "from now" follows from the direction, but for `just_now` and `yesterday`, which
-- say the same of both.
pub relative_date_string : Direction → ℕ → Components → Phrase
relative_date_string after_now delta components =
    if ltb delta 60
    then just_now
    else if ltb delta (2 * 60)
    then minute
    else if ltb delta (45 * 60)
    then minutes components.minute
    else if ltb delta (90 * 60)
    then hour
    else if ltb delta (24 * 3600)
    then hours components.hour
    else if ltb delta (48 * 3600)
    then yesterday
    else if ltb delta (30 * 86400)
    then days components.day
    else if ltb delta (12 * (30 * 86400))
    then (if leb components.month 1 then one_month else months components.month)
    else (if leb components.year 1 then one_year else years components.year)
relative_date_string before_now delta components =
    if ltb delta 60
    then (if ltb delta 5
        then just_now
        else if components.second == 1
        then one_second
        else seconds components.second)
    else if ltb delta (2 * 60)
    then minute
    else if ltb delta (45 * 60)
    then minutes components.minute
    else if ltb delta (90 * 60)
    then hour
    else if ltb delta (24 * 3600)
    then hours components.hour
    else if ltb delta (48 * 3600)
    then yesterday
    else if ltb delta (30 * 86400)
    then days components.day
    else if ltb delta (12 * (30 * 86400))
    then (if leb components.month 1 then one_month else months components.month)
    else (if leb components.year 1 then one_year else years components.year)
