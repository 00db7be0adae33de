-- ===== src/Policy/Schedule/Free.antt =====
-- When occupyWindow accepts a window: exactly when its minutes are free.
use teen_dns.Base.{
  ℕ, zero, suc, ◌+◌, ◌*◌, ◌%◌, ◌≤◌, ◌<◌, ◌≡◌, ◌≢◌, ◌↔◌, refl, ◌∙◌, inl, inr, ℤ, pos, negsuc, Bool,
  true, false, Pairs, eqb, if◌then◌else◌, List, [], ◌∷◌, All, any, arith, Text, is_empty, ok,
  Bool-cases,
}
use teen_dns.Policy.{TimeWindow}
use teen_dns.Policy.Schedule.{
  minute_or_zero, duration, week, Occupied, occupy, occupy_minutes, occupy_days, occupy_window,
  in_week, same_day,
}
use teen_dns.Policy.Schedule.Minutes.{minute_or_zero-lt}
use teen_dns.Policy.Schedule.Windows.{in_arc, day_covers, covers}
use teen_dns.Policy.Schedule.Valid.{IsWindow}
use teen_dns.Policy.Schedule.Occupancy.{Took, occupy_minutes-Took, occupy_window-Took}

in_arc-start : (rounds at : ℕ) → in_arc at (suc rounds) (at % week) ≡ true
unfolding in_arc
in_arc-start rounds at = ground arith

in_arc-next :
    (rounds at t : ℕ)
    → suc rounds ≤ 1440
    → t < week
    → in_arc (suc at) rounds t ≡ true
    → (eqb t (at % week) ≡ false) × (in_arc at (suc rounds) t ≡ true)
unfolding in_arc
in_arc-next rounds at t hr ht h = ground arith

duration-le : (start end : ℕ) → start < 1440 → end < 1440 → duration start end ≤ 1440
duration-le start end hs he = ground arith

-- The run over one arc meets no conflict where all minutes of the arc are free.
occupy_minutes-free :
    (rounds at : ℕ) (id : Text) (before : Occupied)
    → rounds ≤ 1440
    → ((t : ℕ) → t < week → in_arc at rounds t ≡ true → before t ≡ [])
    → (after : Occupied) × (occupy_minutes rounds at id before ≡ ok after)
unfolding occupy_minutes is_empty
occupy_minutes-free zero at id before hr free = (before, refl)
occupy_minutes-free (suc rounds) at id before hr free =
    let later : (t : ℕ)
        → t < week
        → in_arc (suc at) rounds t ≡ true
        → occupy (at % week) id before t ≡ [] =
      λ t ht h. let next = in_arc-next rounds at t hr ht h in rw next.0 (free t ht next.1) in
    let (after, e) =
      occupy_minutes-free rounds (suc at) id (occupy (at % week) id before) (omega arith) later in
    (after, rw (free (at % week) (omega arith) (in_arc-start rounds at)) e)

-- The arcs of two days do not meet, since each is shorter than a day.
day_covers_disjoint :
    (start end t d : ℕ) (c : ℤ)
    → start < 1440
    → end < 1440
    → start ≢ end
    → t < week
    → in_week (pos d) ≡ true
    → in_week c ≡ true
    → same_day c (pos d) ≡ false
    → day_covers start end t c ≡ true
    → day_covers start end t (pos d) ≡ false
unfolding day_covers in_arc in_week same_day
day_covers_disjoint start end t d (pos c) hs he hne ht hd hc hne' h = ground arith
day_covers_disjoint start end t d (negsuc c) hs he hne ht hd hc hne' h = cc

module _ (start end : ℕ) (hs : start < 1440) (he : end < 1440) (hne : start ≢ end) (id : Text) where
  other_days :
      (d : ℕ) (days : List ℤ) (t : ℕ)
      → t < week
      → in_week (pos d) ≡ true
      → All (λ c. in_week c ≡ true) days
      → All (λ c. same_day c (pos d) ≡ false) days
      → any (day_covers start end t) days ≡ true
      → day_covers start end t (pos d) ≡ false
  unfolding any
  other_days d [] t ht hd hw hx h = cc
  other_days d (c ∷ days) t ht hd hw hx h = elim (Bool-cases (day_covers start end t c)) [
    | inl here ↦ day_covers_disjoint start end t d c hs he hne ht hd hw.0 hx.0 here
    | inr past ↦ other_days d days t ht hd hw.1 hx.1 (rw past at h)
  ]

  occupy_days-free :
      (days : List ℤ) (before : Occupied)
      → All (λ d. in_week d ≡ true) days
      → Pairs (λ c d. same_day d c ≡ false) days
      → ((t : ℕ) → t < week → any (day_covers start end t) days ≡ true → before t ≡ [])
      → (after : Occupied) × (occupy_days start end id days before ≡ ok after)
  unfolding occupy_days any day_covers
  occupy_days-free [] before hw hx free = (before, refl)
  occupy_days-free (negsuc d ∷ days) before hw hx free =
      occupy_days-free days before hw.1 hx.1 λ t ht h. free t ht (ground arith)
  occupy_days-free (pos d ∷ days) before hw hx free =
      let first = d * 24 * 60 + start in
      let short = duration-le start end hs he in
      let (mid, e) =
        occupy_minutes-free (duration start end) first id before short
          (λ t ht h. free t ht (rw h)) in
      let untouched : (t : ℕ)
          → t < week
          → in_arc first (duration start end) t ≡ false
          → mid t ≡ before t =
        λ t ht miss.
          rw miss at (occupy_minutes-Took (duration start end) first id before mid t short ht e) in
      let (after, e') = occupy_days-free days mid hw.1 hx.1 (λ t ht h.
        untouched t ht (other_days d days t ht hw.0 hw.1 hx.0 h) ∙ free t ht (ground (arith, h))) in
      (after, rw e e')

window-free :
    (w : TimeWindow) (before : Occupied)
    → IsWindow w
    → ((t : ℕ) → t < week → covers w t ≡ true → before t ≡ [])
    → (after : Occupied) × (occupy_window before w ≡ ok after)
unfolding occupy_window covers
window-free w before v free =
    occupy_days-free (minute_or_zero w.start) (minute_or_zero w.end) (minute_or_zero-lt w.start)
      (minute_or_zero-lt w.end) v.times_differ w.id w.days before v.days_in_week v.days_distinct
      free

-- An accepted window is added without conflict exactly if each minute of the week that it covers
-- is free; and then those minutes are its own and all others are as they were.
pub occupy_window_iff :
    (w : TimeWindow) (before : Occupied)
    → IsWindow w
    → ((after : Occupied) × (occupy_window before w ≡ ok after)
        × ((t : ℕ) → t < week → after t ≡ (if covers w t then w.id else before t)))
      ↔ ((t : ℕ) → t < week → covers w t ≡ true → before t ≡ [])
occupy_window_iff w before v = (sound, complete)
  where
    took :
        (after : Occupied)
        → occupy_window before w ≡ ok after
        → (t : ℕ) → t < week
        → Took w.id (covers w t) (before t) (after t)
    took after e t ht = occupy_window-Took w before after t v ht e

    sound :
        ((after : Occupied) × (occupy_window before w ≡ ok after)
          × ((t : ℕ) → t < week → after t ≡ (if covers w t then w.id else before t)))
        → (t : ℕ) → t < week
        → covers w t ≡ true
        → before t ≡ []
    sound (after, e, _) t ht h = (rw h at (took after e t ht)).0

    shape : (b : Bool) (s u : Text) → Took w.id b s u → u ≡ (if b then w.id else s)
    shape true s u k = k.1
    shape false s u k = k

    complete :
        ((t : ℕ) → t < week → covers w t ≡ true → before t ≡ [])
        → (after : Occupied) × (occupy_window before w ≡ ok after)
          × ((t : ℕ) → t < week → after t ≡ (if covers w t then w.id else before t))
    complete free =
        let (after, e) = window-free w before v free in
        (after, e, λ t ht. shape (covers w t) (before t) (after t) (took after e t ht))
