-- ===== src/Policy/Schedule/Windows.antt =====
-- Windows as sets of minutes of the week: windowActive and occupyWindow read them alike.
use teen_dns.Base.{
  ℕ, ◌+◌, ◌-◌, ◌*◌, ◌%◌, ◌≤◌, ◌<◌, ◌≡◌, ◌≢◌, refl, ℤ, pos, negsuc, Bool, true, false, ltb, List, [],
  ◌∷◌, All, any, arith,
}
use teen_dns.Platform.{LocalTime, IsClock}
use teen_dns.Policy.{TimeWindow}
use teen_dns.Policy.Schedule.{day_active, window_active, minute_or_zero, duration, week, in_week}
use teen_dns.Policy.Schedule.Minutes.{minute_or_zero-lt}
use teen_dns.Policy.Schedule.Valid.{IsWindow}

-- The minute `t` of the week lies within `n` minutes from `first` on, round the end of the week.
unfoldable pub in_arc : ℕ → ℕ → ℕ → Bool
in_arc first n t = ltb ((t + week - first % week) % week) n

-- The day's part of a window, from its start on the day for its duration.
unfoldable pub day_covers : ℕ → ℕ → ℕ → ℤ → Bool
unfolding in_arc
day_covers start end t (pos day) = in_arc (day * 24 * 60 + start) (duration start end) t
day_covers start end t (negsuc day) = false

-- A window covers the minute `t` of the week.
unfoldable pub covers : TimeWindow → ℕ → Bool
covers w t = any (day_covers (minute_or_zero w.start) (minute_or_zero w.end) t) w.days

abbrev pub week_minute : LocalTime → ℕ
week_minute now = now.weekday * 24 * 60 + (now.hour * 60 + now.minute)

day_active-day_covers :
    (start end minute today : ℕ) (day : ℤ)
    → start < 1440
    → end < 1440
    → start ≢ end
    → minute < 1440
    → today ≤ 6
    → in_week day ≡ true
    → day_active start end minute today day ≡ day_covers start end (today * 24 * 60 + minute) day
unfolding day_active day_covers in_week
day_active-day_covers start end minute today (pos d) hs he hne hm ht hd = ground arith
day_active-day_covers start end minute today (negsuc d) hs he hne hm ht hd = ground arith

-- windowActive holds at a local time exactly if the window covers its minute of the week.
module _ (start end minute today : ℕ) where
  any_day :
      (days : List ℤ)
      → start < 1440
      → end < 1440
      → start ≢ end
      → minute < 1440
      → today ≤ 6
      → All (λ d. in_week d ≡ true) days
      → any (day_active start end minute today) days
        ≡ any (day_covers start end (today * 24 * 60 + minute)) days
  unfolding any
  any_day [] hs he hne hm ht hd = refl
  any_day (d ∷ days) hs he hne hm ht hd = rw (
    day_active-day_covers start end minute today d hs he hne hm ht hd.0,
    any_day days hs he hne hm ht hd.1,
  )

-- At any clock time, an accepted window is active exactly if it covers that minute of the week.
pub window_active-covers :
    (w : TimeWindow) (now : LocalTime)
    → IsWindow w
    → IsClock now
    → window_active w now ≡ covers w (week_minute now)
unfolding window_active covers
window_active-covers w now v c =
    any_day (minute_or_zero w.start) (minute_or_zero w.end) (now.hour * 60 + now.minute) now.weekday
      w.days (minute_or_zero-lt w.start) (minute_or_zero-lt w.end) v.times_differ (omega arith)
      c.weekday_range v.days_in_week
