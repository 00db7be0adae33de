-- ===== src/Policy/Schedule/Minutes.antt =====
-- What parseMinute accepts: the clock time of a day, written HH:MM.
use teen_dns.Base.{
  ℕ, ◌+◌, ◌-◌, ◌*◌, true, ◌/◌, ◌%◌, ◌<◌, ◌≡◌, ap, ◌↔◌, inl, inr, [], ◌∷◌, some, arith, Text,
  Option-cases, ◌∙◌,
}
use teen_dns.Policy.Schedule.{is_digit, parse_minute, minute_or_zero}

-- `parsed.Format("15:04")`
unfoldable pub format_minute : ℕ → Text
format_minute m =
    let h = m / 60 in
    let k = m % 60 in
    (b'0' + h / 10) ∷ (b'0' + h % 10) ∷ b':' ∷ (b'0' + k / 10) ∷ (b'0' + k % 10) ∷ []

pub parse_minute-lt : (v : Text) (m : ℕ) → parse_minute v ≡ some m → m < 1440
unfolding parse_minute
parse_minute-lt (a ∷ b ∷ c ∷ d ∷ e ∷ []) m h = ground arith
parse_minute-lt _ m h = cc

-- Two decimal digits and the number that they stand for.
abbrev DigitsOf : ℕ → ℕ → ℕ → Type 0
DigitsOf x y n = (x ≡ b'0' + n / 10) × (y ≡ b'0' + n % 10)

record Accepted (a b c d e m : ℕ) : Type 0 where
  hour : ℕ
  minute : ℕ
  first_digits : DigitsOf a b hour
  colon : c ≡ b':'
  last_digits : DigitsOf d e minute
  minute_range : minute < 60
  total : m ≡ hour * 60 + minute

digits_back :
    (x y : ℕ) → is_digit x ≡ true → is_digit y ≡ true → DigitsOf x y ((x - b'0') * 10 + (y - b'0'))
unfolding is_digit
digits_back x y p q = ground arith

parse_minute-Accepted :
    (a b c d e m : ℕ) → parse_minute (a ∷ b ∷ c ∷ d ∷ e ∷ []) ≡ some m → Accepted a b c d e m
unfolding parse_minute
parse_minute-Accepted a b c d e m h = record {
  hour = (a - b'0') * 10 + (b - b'0');
  minute = (d - b'0') * 10 + (e - b'0');
  first_digits = digits_back a b (ground arith) (ground arith);
  colon = ground arith;
  last_digits = digits_back d e (ground arith) (ground arith);
  minute_range = ground arith;
  total = ground arith;
}

Accepted-format :
    (a b c d e m : ℕ) → Accepted a b c d e m → a ∷ b ∷ c ∷ d ∷ e ∷ [] ≡ format_minute m
unfolding format_minute
Accepted-format a b c d e m r =
    let hours : m / 60 ≡ r.hour = omega arith in
    let minutes : m % 60 ≡ r.minute = omega arith in
    rw (hours, minutes)
      (cc (r.first_digits.0, r.first_digits.1, r.colon, r.last_digits.0, r.last_digits.1))

format-parse : (v : Text) (m : ℕ) → parse_minute v ≡ some m → v ≡ format_minute m
unfolding parse_minute
format-parse (a ∷ b ∷ c ∷ d ∷ e ∷ []) m h =
    Accepted-format a b c d e m (parse_minute-Accepted a b c d e m h)
format-parse _ m h = cc

parse-format : (m : ℕ) → m < 1440 → parse_minute (format_minute m) ≡ some m
unfolding parse_minute format_minute
parse-format m h = ground arith

-- A text is accepted as the minute `m` exactly when `m` lies in the day and the text is the one
-- that the formatter prints for `m`.
pub parse_minute_iff :
    (v : Text) (m : ℕ) → (parse_minute v ≡ some m) ↔ ((m < 1440) × (v ≡ format_minute m))
parse_minute_iff v m = (
  λ h. (parse_minute-lt v m h, format-parse v m h),
  λ (small, e). ap parse_minute e ∙ parse-format m small,
)

pub minute_or_zero-lt : (v : Text) → minute_or_zero v < 1440
unfolding minute_or_zero
minute_or_zero-lt v = elim (Option-cases (parse_minute v)) [
  | inl e ↦ rw (e, minute_or_zero) (omega arith)
  | inr (m, e) ↦ rw (e, minute_or_zero) (parse_minute-lt v m e)
]
