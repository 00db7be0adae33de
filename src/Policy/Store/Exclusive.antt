-- ===== src/Policy/Store/Exclusive.antt =====
-- The schedules of an accepted group: no two of them are ever active together.
use teen_dns.Base.{
  ℕ, sym, ◌∙◌, ◌≡◌, ◌≢◌, ◌<◌, inl, inr, true, false, List, [], ◌∷◌, All, All-map, Pairs, Pairs-map,
  Text, arith, Bool-cases, is_empty_iff, ok, Result-cases,
}
use teen_dns.Platform.{LocalTime, IsClock}
use teen_dns.Policy.{ScheduledAction, schedule_action}
use teen_dns.Policy.Schedule.{occupy_window, Occupied, week, window_active}
use teen_dns.Policy.Schedule.Valid.{IsWindow, validate_window-IsWindow}
use teen_dns.Policy.Schedule.Windows.{covers, week_minute, window_active-covers}
use teen_dns.Policy.Schedule.Occupancy.{Took, occupy_window-Took}
use teen_dns.Policy.Store.{check_schedules}

abbrev pub IsSchedule : ScheduledAction → Type 0
IsSchedule s = IsWindow s.window × (schedule_action s.action ≡ true)

-- No minute of the week lies in both windows.
abbrev Apart : ScheduledAction → ScheduledAction → Type 0
Apart s s' = (t : ℕ) → t < week → covers s.window t ≡ true → covers s'.window t ≡ false

abbrev FreeIn : Occupied → ScheduledAction → Type 0
FreeIn occupied s = (t : ℕ) → t < week → covers s.window t ≡ true → occupied t ≡ []

record Accepted (p g : Text) (seen : List Text) (before : Occupied) (s : ScheduledAction)
    (ss : List ScheduledAction) : Type 0 where
  schedule : IsSchedule s
  after : Occupied
  occupied : occupy_window before s.window ≡ ok after
  rest : check_schedules p g (s.window.id ∷ seen) after ss ≡ ok tt

check_schedules-Accepted :
    (p g : Text) (seen : List Text) (before : Occupied) (s : ScheduledAction)
    (ss : List ScheduledAction)
    → check_schedules p g seen before (s ∷ ss) ≡ ok tt
    → Accepted p g seen before s ss
unfolding check_schedules
check_schedules-Accepted p g seen before s ss h =
    elim (Result-cases (occupy_window before s.window)) [
      | inl (after, e) ↦ record {
        schedule = (validate_window-IsWindow s.window (ground arith), ground arith);
        after = after;
        occupied = e;
        rest = ground arith;
      }
      | inr (x, e) ↦ ground arith
    ]

-- What the minutes that `s` took say of a later schedule `s'`, whose minutes were free after it.
module _ (before after : Occupied) (s : ScheduledAction) (v : IsWindow s.window)
    (e : occupy_window before s.window ≡ ok after) where
  took : (t : ℕ) → t < week → Took s.window.id (covers s.window t) (before t) (after t)
  took t ht = occupy_window-Took s.window before after t v ht e

  free_self : FreeIn before s
  free_self t ht h = (rw h at (took t ht)).0

  not_free : (t : ℕ) → t < week → covers s.window t ≡ true → after t ≢ []
  not_free t ht h empty =
      let mine : after t ≡ s.window.id = (rw h at (took t ht)).1 in
      ground (arith, v.has_id, is_empty_iff s.window.id)

  free_before : (s' : ScheduledAction) → FreeIn after s' → FreeIn before s'
  free_before s' free t ht h = elim (Bool-cases (covers s.window t)) [
    | inl on ↦ absurd (not_free t ht on (free t ht h))
    | inr off ↦ sym (rw off at (took t ht)) ∙ free t ht h
  ]

  apart : (s' : ScheduledAction) → FreeIn after s' → Apart s s'
  apart s' free t ht h = elim (Bool-cases (covers s'.window t)) [
    | inl on ↦ absurd (not_free t ht h (free t ht on))
    | inr off ↦ off
  ]

check_schedules-Apart :
    (p g : Text) (seen : List Text) (before : Occupied) (ss : List ScheduledAction)
    → check_schedules p g seen before ss ≡ ok tt
    → All IsSchedule ss × All (FreeIn before) ss × Pairs Apart ss
check_schedules-Apart p g seen before [] h = (tt, tt, tt)
check_schedules-Apart p g seen before (s ∷ ss) h =
    let a = check_schedules-Accepted p g seen before s ss h in
    let (valid, free, pairs) = check_schedules-Apart p g (s.window.id ∷ seen) a.after ss a.rest in
    (
      (a.schedule, valid),
      (
        free_self before a.after s a.schedule.0 a.occupied,
        All-map ss (free_before before a.after s a.schedule.0 a.occupied) free,
      ),
      (All-map ss (apart before a.after s a.schedule.0 a.occupied) free, pairs),
    )

-- Both windows are active at the local time.
abbrev pub Together : LocalTime → ScheduledAction → ScheduledAction → Type 0
Together now s s' = (window_active s.window now ≡ true) × (window_active s'.window now ≡ true)

not-Together :
    (now : LocalTime) (s s' : ScheduledAction)
    → IsClock now
    → IsSchedule s
    → IsSchedule s'
    → Apart s s'
    → ¬ Together now s s'
not-Together now s s' c v v' apart (on, on') = cc (
  apart (week_minute now) (omega arith) (sym (window_active-covers s.window now v.0 c) ∙ on),
  sym (window_active-covers s'.window now v'.0 c) ∙ on',
)

-- Where the schedules of a group pass the checks of NewStore, each of them is a valid window with
-- an action that allows or blocks, and at no clock time are two of them active.
pub check_schedules-exclusive :
    (p g : Text) (ss : List ScheduledAction) (now : LocalTime)
    → check_schedules p g [] (λ _. []) ss ≡ ok tt
    → IsClock now
    → All IsSchedule ss × Pairs (λ s s'. ¬ Together now s s') ss
check_schedules-exclusive p g ss now h c =
    let (valid, _, apart) = check_schedules-Apart p g [] (λ _. []) ss h in
    (valid, Pairs-map ss (λ s s'. not-Together now s s' c) valid apart)
