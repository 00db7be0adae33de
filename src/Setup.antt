-- ===== src/Setup.antt =====
-- internal/setup: what is put into the scripts and profiles for setting a device up. The texts of the
-- scripts and SHA-256 are arguments.
pub mod Lines
pub mod Apple
mod Samples
use teen_dns.Base.{
  ℕ, zero, suc, ◌+◌, ◌-◌, Bool, true, false, not, ◌&&◌, ◌||◌, ltb, leb, eqb, if◌then◌else◌, any,
  List, [], ◌∷◌, ◌++◌, length, Option, none, some, Text, codes, is_empty, trim_space, contains_any,
  has_prefix, byte_length, Result, ok, err, ◌>>=◌, ◌>>◌, require,
}
use teen_dns.Platform.{Platform, to_lower}

pub record Params : Type 0 where
  pub hostname : Text
  pub ip : Text
  pub port : Text
  pub test_domain : Text

pub data SetupError : Type 0 where
  hostname_required line_break bad_hostname ip_required not_rendered : SetupError
  bad_port : Text → SetupError

abbrev pub or_text : Text → Text → Text
or_text fallback value = if is_empty value then fallback else value

abbrev pub breaks_line : Text → Bool
breaks_line value = contains_any value (13 ∷ 10 ∷ [])

-- Params.normalized
unfoldable pub normalized : Platform → Params → Result SetupError Params
normalized env p = do
  let hostname = to_lower env (trim_space p.hostname)
  require (not (is_empty hostname)) hostname_required
  require (not (any breaks_line (hostname ∷ p.ip ∷ p.port ∷ p.test_domain ∷ []))) line_break
  require (not (contains_any hostname (32 ∷ 9 ∷ []))) bad_hostname
  ok (record {
    hostname = hostname;
    ip = trim_space p.ip;
    port = or_text (codes "853") (trim_space p.port);
    test_domain = or_text (codes "example.com") (trim_space p.test_domain);
  })

-- Whether a replaced text starts here: the first pair that fits, as strings.Replacer tries them.
unfoldable pub fitting_pair : List (Text × Text) → Text → Option (Text × Text)
fitting_pair [] s = none
fitting_pair (pair ∷ pairs) s =
    let rest = fitting_pair pairs s in if has_prefix s pair.0 then some pair else rest

abbrev pub pair_length : Text × Text → ℕ
pair_length pair = length pair.0

-- strings.Replacer: `skip` code points of the last replaced text are still to be passed over. The
-- replaced texts are not empty.
unfoldable pub replace_from : List (Text × Text) → ℕ → Text → Text
unfolding fitting_pair
replace_from pairs skip [] = []
replace_from pairs (suc skip) (c ∷ s) = replace_from pairs skip s
replace_from pairs zero (c ∷ s) =
    let plain = replace_from pairs zero s in
    elim (fitting_pair pairs (c ∷ s)) [
      | none ↦ c ∷ plain
      | some pair ↦ pair.1 ++ replace_from pairs (length pair.0 - 1) s
    ]

unfoldable pub replace_texts : List (Text × Text) → Text → Text
unfolding replace_from
replace_texts pairs s = replace_from pairs zero s

abbrev pub placeholders : Params → List (Text × Text)
placeholders p =
    (codes "{{.Hostname}}", p.hostname)
    ∷ (codes "{{.IP}}", p.ip)
    ∷ (codes "{{.Port}}", p.port)
    ∷ (codes "{{.TestDomain}}", p.test_domain)
    ∷ []

unfoldable pub render : Text → Params → Text
unfolding replace_texts
render template p = replace_texts (placeholders p) template

-- The two calls of strings.ReplaceAll.
unfoldable pub windows_line_endings : Text → Text
unfolding replace_texts
windows_line_endings content =
    replace_texts ((10 ∷ [], 13 ∷ 10 ∷ []) ∷ [])
      (replace_texts ((13 ∷ 10 ∷ [], 10 ∷ []) ∷ []) content)

abbrev pub is_port_digit : ℕ → Bool
is_port_digit c = leb b'0' c && leb c b'9'

-- validatePort
unfoldable pub validate_port : Text → Result SetupError (Unit {0})
validate_port port = do
  require (not (is_empty port || ltb 5 (byte_length port))) (bad_port port)
  require (not (any (λ c. not (is_port_digit c)) port)) (bad_port port)

-- WindowsInstallBat, with the text of windowsInstallTemplate
unfoldable pub windows_install_bat : Platform → Text → Params → Result SetupError Text
unfolding normalized render windows_line_endings
windows_install_bat env template p = do
  q ← normalized env p
  _ ← validate_port q.port
  require (not (is_empty q.ip)) ip_required
  ok (windows_line_endings (render template q))

-- WindowsRemoveBat, with the text of windowsRemoveTemplate
unfoldable pub windows_remove_bat : Platform → Text → Params → Result SetupError Text
unfolding normalized render windows_line_endings
windows_remove_bat env template p = do
  q ← normalized env p
  ok (windows_line_endings (render template q))
