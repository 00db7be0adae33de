-- ===== src/Platform.antt =====
-- What the program takes from the machine that it runs on: the Unicode case table beyond ASCII and
-- the time zone database (`_ "time/tzdata"`, `time.LoadLocation`). Both are data that the
-- repository does not hold, so they are a parameter of the model.
pub mod Plain
use teen_dns.Base.{ℕ, ◌+◌, ◌≤◌, ◌<◌, Bool, Text, map, ltb, leb, ◌&&◌, if◌then◌else◌}

-- An instant, `time.Time`: nanoseconds from a fixed start. A duration is a number of nanoseconds.
abbrev pub Instant : Type 0
Instant = ℕ

-- `now.In(location)`: the parts of the local time that the program reads.
pub record LocalTime : Type 0 where
  pub weekday : ℕ
  pub hour : ℕ
  pub minute : ℕ

pub record Platform : Type 0 where
  -- unicode.ToLower of a code point beyond ASCII
  pub lower_rune : ℕ → ℕ
  -- whether time.LoadLocation knows the name
  pub known_zone : Text → Bool
  -- the local time in a loaded zone
  pub local_time : Text → Instant → LocalTime

-- The documented ranges of time.Weekday, Hour and Minute.
pub record IsClock (t : LocalTime) : Type 0 where
  pub weekday_range : t.weekday ≤ 6
  pub hour_range : t.hour < 24
  pub minute_range : t.minute < 60

-- time.Hour * 24 and the like are multiples of this.
abbrev pub second : ℕ
second = 1_000_000_000

-- strings.ToLower
unfoldable pub to_lower : Platform → Text → Text
to_lower env =
    map
      λ c. if ltb c 0x80 then (if leb b'A' c && leb c b'Z' then c + 32 else c) else env.lower_rune c
