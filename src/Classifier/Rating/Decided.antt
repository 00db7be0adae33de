-- ===== src/Classifier/Rating/Decided.antt =====
-- What a decision rests on.
use teen_dns.Base.{ℕ, ◌≡◌, ◌≤◌, ◌⊎◌, List, In, Option, some, Text, Map, lookup, text_eq, codes}
use teen_dns.Base.Latest.{IsLast}
use teen_dns.Classifier.{PageProfile, Criterion}
use teen_dns.Classifier.Rating.{rating_value, itoa}

module _ (page : PageProfile) (known : Map Text Criterion) (threshold : ℕ) where
  -- A score that reaches the threshold, of a criterion of the catalogue.
  abbrev Reached : Map Text ℕ → Text → ℕ → Criterion → Type 0
  Reached scores id score c =
      In (id, score) scores × (threshold ≤ score) × (lookup id known ≡ some c)

  -- `n` is the greatest rating of what is reached, and of `start`.
  record Peak (scores : Map Text ℕ) (start n : ℕ) : Type 0 where
    pub upper :
        (id : Text) (score : ℕ) (c : Criterion)
        → Reached scores id score c
        → rating_value c.rating ≤ n
    pub above : start ≤ n
    pub attained :
        (n ≡ start)
        ⊎ ((id : Text) × (score : ℕ) × (c : Criterion) × Reached scores id score c
            × (rating_value c.rating ≡ n))

  record Stepped (score : ℕ) (o : Option Criterion) (start n : ℕ) : Type 0 where
    upper : (c : Criterion) → threshold ≤ score → o ≡ some c → rating_value c.rating ≤ n
    above : start ≤ n
    attained :
        (n ≡ start)
        ⊎ ((c : Criterion) × (threshold ≤ score) × (o ≡ some c) × (rating_value c.rating ≡ n))

-- A score that reaches the threshold, with the last criterion of the catalogue that has its id.
abbrev pub Counted : List Criterion → ℕ → Map Text ℕ → Text → ℕ → Criterion → Type 0
Counted catalog threshold scores id score c =
    In (id, score) scores × (threshold ≤ score) × IsLast (λ (x : Criterion). x.id) id catalog c

-- `n` is the greatest rating that counts, and 0 where none does.
pub record Highest (catalog : List Criterion) (threshold : ℕ) (scores : Map Text ℕ) (n : ℕ)
    : Type 0 where
  pub upper :
      (id : Text) (score : ℕ) (c : Criterion)
      → Counted catalog threshold scores id score c
      → rating_value c.rating ≤ n
  pub attained :
      (n ≡ 0)
      ⊎ ((id : Text) × (score : ℕ) × (c : Criterion) × Counted catalog threshold scores id score c
          × (rating_value c.rating ≡ n))

-- What the number `n` means: nothing is known at 0, and from there on it is the rating, up to 15 to be
-- mediated and from 16 on to be protected from.
abbrev pub Means : ℕ → Text → Text → Type 0
Means n rating decision =
    ((n ≡ 0) × (rating ≡ codes "unknown") × (decision ≡ codes "observe"))
    ⊎ ((1 ≤ n) × (n ≤ 15) × (rating ≡ itoa n) × (decision ≡ codes "mediate"))
    ⊎ ((16 ≤ n) × (rating ≡ itoa n) × (decision ≡ codes "protect"))
