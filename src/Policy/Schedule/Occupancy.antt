-- ===== src/Policy/Schedule/Occupancy.antt =====
-- occupyWindow: the minutes that it takes, and that it takes none twice.
use teen_dns.Base.{
  ℕ, zero, suc, ◌+◌, ◌*◌, ◌%◌, ◌≤◌, ◌<◌, ◌≡◌, ◌≢◌, sym, ◌∙◌, ℤ, pos, negsuc, Bool, true, false,
  ◌||◌, List, [], ◌∷◌, any, arith, Text, is_empty_iff, ok, bind_inv,
}
use teen_dns.Policy.{TimeWindow}
use teen_dns.Policy.Schedule.{
  minute_or_zero, duration, week, Occupied, occupy, occupy_minutes, occupy_days, occupy_window,
}
use teen_dns.Policy.Schedule.Minutes.{minute_or_zero-lt}
use teen_dns.Policy.Schedule.Windows.{in_arc, day_covers, covers}
use teen_dns.Policy.Schedule.Valid.{IsWindow}

-- After a run that met no conflict, the minutes of the arc belong to `id` and were free before;
-- every other minute is as it was.
abbrev pub Took : Text → Bool → Text → Text → Type 0
Took id true before after = (before ≡ []) × (after ≡ id)
Took id false before after = after ≡ before

pub occupy_minutes-Took :
    (rounds at : ℕ) (id : Text) (before after : Occupied) (t : ℕ)
    → rounds ≤ 1440
    → t < week
    → occupy_minutes rounds at id before ≡ ok after
    → Took id (in_arc at rounds t) (before t) (after t)
unfolding occupy_minutes in_arc
occupy_minutes-Took zero at id before after t hr ht h = ground arith
occupy_minutes-Took (suc rounds) at id before after t hr ht h = ground (
  arith,
  is_empty_iff (before (at % week)),
  occupy_minutes-Took rounds (suc at) id (occupy (at % week) id before) after t,
)

Took-trans :
    (id : Text) (a b : Bool) (s t u : Text)
    → id ≢ []
    → Took id a s t
    → Took id b t u
    → Took id (a || b) s u
Took-trans id true true s t u n p q = absurd (n (sym p.1 ∙ q.0))
Took-trans id true false s t u n p q = (p.0, q ∙ p.1)
Took-trans id false true s t u n p q = (sym p ∙ q.0, q.1)
Took-trans id false false s t u n p q = q ∙ p

module _ (start end : ℕ) (hs : start < 1440) (he : end < 1440) (id : Text) where
  occupy_days-Took :
      (days : List ℤ) (before after : Occupied) (t : ℕ)
      → id ≢ []
      → t < week
      → occupy_days start end id days before ≡ ok after
      → Took id (any (day_covers start end t) days) (before t) (after t)
  unfolding occupy_days any day_covers
  occupy_days-Took [] before after t n ht h = ground arith
  occupy_days-Took (negsuc d ∷ days) before after t n ht h =
      occupy_days-Took days before after t n ht h
  occupy_days-Took (pos d ∷ days) before after t n ht h =
      let first = d * 24 * 60 + start in
      let (mid, taken, rest) =
        bind_inv (occupy_minutes (duration start end) first id before)
          (λ m. occupy_days start end id days m) h in
      Took-trans id (in_arc first (duration start end) t) _ (before t) (mid t) (after t) n
        (occupy_minutes-Took (duration start end) first id before mid t (ground arith) ht taken)
        (occupy_days-Took days mid after t n ht rest)

pub occupy_window-Took :
    (w : TimeWindow) (before after : Occupied) (t : ℕ)
    → IsWindow w
    → t < week
    → occupy_window before w ≡ ok after
    → Took w.id (covers w t) (before t) (after t)
unfolding occupy_window covers
occupy_window-Took w before after t v ht h =
    occupy_days-Took (minute_or_zero w.start) (minute_or_zero w.end) (minute_or_zero-lt w.start)
      (minute_or_zero-lt w.end) w.id w.days before after t
      (ground (arith, v.has_id, is_empty_iff w.id)) ht h
