-- ===== src/Policy/Schedule/Valid.antt =====
-- What validateWindow promises of a window that it accepts.
use teen_dns.Base.{
  ◌≤◌, ◌≡◌, ◌≢◌, refl, ℤ, Bool, true, false, length, Pairs, some, trim_space, List, [], ◌∷◌, All,
  any, arith, Text, is_empty, ok,
}
use teen_dns.Policy.{TimeWindow}
use teen_dns.Policy.Schedule.{
  minute_or_zero, in_week, parse_minute, check_days, same_day, validate_window,
}

pub record IsWindow (w : TimeWindow) : Type 0 where
  pub has_id : is_empty w.id ≡ false
  pub start_parsed : parse_minute w.start ≡ some (minute_or_zero w.start)
  pub end_parsed : parse_minute w.end ≡ some (minute_or_zero w.end)
  pub times_differ : minute_or_zero w.start ≢ minute_or_zero w.end
  pub days_in_week : All (λ d. in_week d ≡ true) w.days
  pub days_distinct : Pairs (λ c d. same_day d c ≡ false) w.days
  pub some_day : 1 ≤ length w.days

check_days-in_week :
    (seen days : List ℤ) → check_days seen days ≡ ok tt → All (λ d. in_week d ≡ true) days
unfolding check_days
check_days-in_week seen [] h = tt
check_days-in_week seen (d ∷ days) h = ground (arith, check_days-in_week (d ∷ seen) days)

any-false {ℓ} :
    {A : Type ℓ} (p : A → Bool) (xs : List A) → any p xs ≡ false → All (λ x. p x ≡ false) xs
unfolding any
any-false p [] h = tt
any-false p (x ∷ xs) h = ground (arith, any-false p xs)

-- No later day is one that was seen.
abbrev Apart : List ℤ → ℤ → Type 0
Apart days s = All (λ d. same_day d s ≡ false) days

Apart-cons :
    (d : ℤ) (days seen : List ℤ)
    → All (λ s. same_day d s ≡ false) seen
    → All (Apart days) seen
    → All (Apart (d ∷ days)) seen
Apart-cons d days [] p q = tt
Apart-cons d days (s ∷ seen) p q = ((p.0, q.0), Apart-cons d days seen p.1 q.1)

All-nil : (seen : List ℤ) → All (Apart []) seen
All-nil [] = tt
All-nil (s ∷ seen) = (tt, All-nil seen)

check_days-distinct :
    (seen days : List ℤ)
    → check_days seen days ≡ ok tt
    → All (Apart days) seen × Pairs (λ c d. same_day d c ≡ false) days
unfolding check_days
check_days-distinct seen [] h = (All-nil seen, tt)
check_days-distinct seen (d ∷ days) h =
    let (before, later) = check_days-distinct (d ∷ seen) days (ground arith) in
    let fresh = any-false (same_day d) seen (ground arith) in
    (Apart-cons d days seen fresh before.1, (before.0, later))

trim_space-has_id : (s : Text) → is_empty (trim_space s) ≡ false → is_empty s ≡ false
unfolding trim_space is_empty
trim_space-has_id [] h = h
trim_space-has_id (c ∷ s) h = refl

check_days_of_valid : (w : TimeWindow) → validate_window w ≡ ok tt → check_days [] w.days ≡ ok tt
unfolding validate_window
check_days_of_valid w h = ground arith

pub validate_window-IsWindow : (w : TimeWindow) → validate_window w ≡ ok tt → IsWindow w
unfolding validate_window minute_or_zero
validate_window-IsWindow w h = record {
  has_id = trim_space-has_id w.id (ground arith);
  start_parsed = ground arith;
  end_parsed = ground arith;
  times_differ = ground arith;
  days_in_week = check_days-in_week [] w.days (check_days_of_valid w h);
  days_distinct = (check_days-distinct [] w.days (check_days_of_valid w h)).1;
  some_day = ground arith;
}
