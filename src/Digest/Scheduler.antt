-- ===== src/Digest/Scheduler.antt =====
-- checkAndSend of scheduler.go. Whether a letter can be sent and whether the file can be written
-- are arguments.
pub mod Letters
use teen_dns.Base.{
  ℕ, Bool, true, false, not, ◌&&◌, ◌++◌, if◌then◌else◌, List, [], ◌∷◌, Text, texts_equal, is_empty,
}
use teen_dns.Platform.{Instant}
use teen_dns.Policy.{Profile}
use teen_dns.Config.{House, Config}
use teen_dns.Digest.{Store, is_due, complete_digest}
use teen_dns.Digest.Report.{CategoryDigest, digest}

pub record Letter : Type 0 where
  pub house_id : Text
  pub email : Text
  pub house_name : Text
  pub report : List CategoryDigest

-- What the outside does with one pass: whether a letter can be sent, and the file written behind it.
pub record Outside : Type 0 where
  pub sends : Letter → Bool
  pub writable : Letter → Bool

unfoldable pub profile_ids_for_house : List Profile → Text → List Text
profile_ids_for_house [] house = []
profile_ids_for_house (p ∷ ps) house =
    let rest = profile_ids_for_house ps house in
    if texts_equal p.house_id house then p.id ∷ rest else rest

abbrev pub letter_for : Store → List Profile → House → Letter
letter_for s ps house = record {
  house_id = house.id;
  email = house.email;
  house_name = house.name;
  report = digest s (profile_ids_for_house ps house.id);
}

unfoldable pub due_house : Store → Instant → ℕ → House → Bool
due_house s now interval house = not (is_empty house.email) && is_due s house.id now interval

-- The body of the loop; the letter that was sent, if one was.
unfoldable pub check_house :
    Outside → List Profile → Instant → ℕ → Store → House → Store × List Letter
unfolding due_house profile_ids_for_house
check_house outside ps now interval s house =
    let letter = letter_for s ps house in
    if not (due_house s now interval house)
    then (s, [])
    else if outside.sends letter
    then (
      (complete_digest s house.id (profile_ids_for_house ps house.id) now
          (outside.writable letter)).0,
      letter ∷ [],
    )
    else (s, [])

unfoldable pub check_houses :
    Outside → List Profile → Instant → ℕ → Store → List House → Store × List Letter
unfolding check_house
check_houses outside ps now interval s [] = (s, [])
check_houses outside ps now interval s (house ∷ houses) =
    let first = check_house outside ps now interval s house in
    let rest = check_houses outside ps now interval first.0 houses in (rest.0, first.1 ++ rest.1)

unfoldable pub check_and_send : Outside → Config → Instant → ℕ → Store → Store × List Letter
unfolding check_houses
check_and_send outside cfg now interval s =
    check_houses outside cfg.profiles now interval s cfg.houses
