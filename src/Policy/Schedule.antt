-- ===== src/Policy/Schedule.antt =====
-- schedule.go: weekly windows of time, their validation, and which of them are active.
pub mod Minutes
pub mod Valid
pub mod Windows
pub mod Occupancy
pub mod Free
use teen_dns.Base.{
  ℕ, zero, suc, ◌+◌, ◌-◌, ◌*◌, ◌%◌, ℤ, pos, negsuc, Bool, false, not, ◌&&◌, ◌||◌, ltb, leb, eqb,
  if◌then◌else◌, List, [], ◌∷◌, length, any, Option, none, some, Text, codes, is_empty, trim_space,
  Result, ok, err, ◌>>=◌, ◌>>◌, require,
}
use teen_dns.Platform.{Platform, LocalTime}
use teen_dns.Policy.{TimeWindow, ScheduledAction}

abbrev pub default_time_zone : Text
default_time_zone = codes "America/Sao_Paulo"

abbrev pub zone_or_default : Text → Text
zone_or_default name = if is_empty name then default_time_zone else name

-- profileLocation; the error names the zone that is not known
unfoldable pub profile_location : Platform → Text → Result Text Text
profile_location env name =
    let zone = zone_or_default name in if env.known_zone zone then ok zone else err zone

unfoldable pub is_digit : ℕ → Bool
is_digit c = leb b'0' c && leb c b'9'

-- time.Parse("15:04", value) with the check that the result prints as `value`
unfoldable pub parse_minute : Text → Option ℕ
unfolding is_digit
parse_minute (a ∷ b ∷ c ∷ d ∷ e ∷ []) =
    let hour = (a - b'0') * 10 + (b - b'0') in
    let minute = (d - b'0') * 10 + (e - b'0') in
    if is_digit a
      && is_digit b
      && eqb c b':'
      && is_digit d
      && is_digit e
      && ltb hour 24
      && ltb minute 60
    then some (hour * 60 + minute)
    else none
parse_minute _ = none

-- `minute, _ := parseMinute(value)`
unfoldable pub minute_or_zero : Text → ℕ
unfolding parse_minute
minute_or_zero value = elim (parse_minute value) [ none ↦ 0 | some m ↦ m ]

pub data WindowError : Type 0 where
  id_required id_too_long label_required label_too_long : WindowError
  invalid_start invalid_end : Text → WindowError
  times_must_differ weekday_required : WindowError
  weekday_out_of_range weekday_repeated : ℤ → WindowError

abbrev pub minute_of : Text → WindowError → Result WindowError ℕ
minute_of value e = elim (parse_minute value) [ none ↦ err e | some m ↦ ok m ]

unfoldable pub in_week : ℤ → Bool
in_week (pos d) = leb d 6
in_week (negsuc d) = false

unfoldable pub same_day : ℤ → ℤ → Bool
same_day (pos a) (pos b) = eqb a b
same_day (negsuc a) (negsuc b) = eqb a b
same_day _ _ = false

unfoldable pub check_days : List ℤ → List ℤ → Result WindowError (Unit {0})
check_days seen [] = ok tt
check_days seen (day ∷ days) = do
  require (in_week day) (weekday_out_of_range day)
  require (not (any (same_day day) seen)) (weekday_repeated day)
  check_days (day ∷ seen) days

unfoldable pub validate_window : TimeWindow → Result WindowError (Unit {0})
validate_window w = do
  let id = trim_space w.id
  require (not (is_empty id)) id_required
  require (leb (length id) 80) id_too_long
  let label = trim_space w.label
  require (not (is_empty label)) label_required
  require (leb (length label) 80) label_too_long
  start ← minute_of w.start (invalid_start w.start)
  end ← minute_of w.end (invalid_end w.end)
  require (not (eqb start end)) times_must_differ
  require (leb 1 (length w.days)) weekday_required
  check_days [] w.days

unfoldable pub is_day : ℕ → ℤ → Bool
is_day today (pos d) = eqb d today
is_day today (negsuc d) = false

-- The body of the loop over the days of a window.
unfoldable pub day_active : ℕ → ℕ → ℕ → ℕ → ℤ → Bool
unfolding is_day
day_active start end minute today day =
    (is_day today day
      && ((ltb start end && leb start minute && ltb minute end)
          || (ltb end start && leb start minute)))
    || (ltb end start && is_day ((today + 6) % 7) day && ltb minute end)

unfoldable pub window_active : TimeWindow → LocalTime → Bool
window_active w now =
    any
      (day_active (minute_or_zero w.start) (minute_or_zero w.end) (now.hour * 60 + now.minute)
        now.weekday)
      w.days

unfoldable pub active_scheduled_action : List ScheduledAction → LocalTime → Option ScheduledAction
active_scheduled_action [] now = none
active_scheduled_action (s ∷ ss) now =
    let rest = active_scheduled_action ss now in if window_active s.window now then some s else rest

-- The map from a minute of the week to the window that holds it; "" where there is none.
abbrev pub Occupied : Type 0
Occupied = ℕ → Text

abbrev pub week : ℕ
week = 7 * 24 * 60

abbrev pub occupy : ℕ → Text → Occupied → Occupied
occupy minute id occupied m = if eqb m minute then id else occupied m

-- The inner loop: `rounds` minutes from `at` on. The error is the window that is there already.
unfoldable pub occupy_minutes : ℕ → ℕ → Text → Occupied → Result Text Occupied
occupy_minutes zero at id occupied = ok occupied
occupy_minutes (suc rounds) at id occupied =
    let existing = occupied (at % week) in
    let rest = occupy_minutes rounds (suc at) id (occupy (at % week) id occupied) in
    if is_empty existing then rest else err existing

abbrev pub duration : ℕ → ℕ → ℕ
duration start end = if leb end start then end + 24 * 60 - start else end - start

-- Its caller has validated the window, so no day is negative.
unfoldable pub occupy_days : ℕ → ℕ → Text → List ℤ → Occupied → Result Text Occupied
occupy_days start end id [] occupied = ok occupied
occupy_days start end id (pos day ∷ days) occupied = do
  next ← occupy_minutes (duration start end) (day * 24 * 60 + start) id occupied
  occupy_days start end id days next
occupy_days start end id (negsuc day ∷ days) occupied = occupy_days start end id days occupied

unfoldable pub occupy_window : Occupied → TimeWindow → Result Text Occupied
occupy_window occupied w =
    occupy_days (minute_or_zero w.start) (minute_or_zero w.end) w.id w.days occupied
