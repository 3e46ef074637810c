-- ===== src/Dates/Tests.antt =====
-- A date that lies 30 hours ahead.
use feather.Common.{nat_eq, string_eq, list_eq, ◌*◌, ◌≤◌, ◌<◌, ◌≡◌, ◌↔◌}
use feather.Dates.{after_now, yesterday, Components, relative_date_string}
use feather.Dates.Yesterday.{relative_date_string-yesterday}

abbrev thirty_hours : Components
thirty_hours = record { year = 0; month = 0; day = 1; hour = 6; minute = 0; second = 0 }

relative_date_string-yesterday_example :
    (relative_date_string after_now 108000 thirty_hours ≡ yesterday)
    ↔ ((24 * 3600 ≤ 108000) × (108000 < 48 * 3600))
relative_date_string-yesterday_example =
    relative_date_string-yesterday after_now 108000 thirty_hours
