-- ===== src/Setup/Lines.antt =====
-- What is put into a script cannot add a line to it.
use teen_dns.Base.{
  ℕ, zero, suc, ◌+◌, ◌-◌, ◌≡◌, ◌≤◌, refl, ap, sym, ◌∙◌, subst, inl, inr, Bool, true, false, ◌||◌,
  eqb, if◌then◌else◌, any, List, [], ◌∷◌, ◌++◌, All, length, some, Text, contains, contains_any,
  has_prefix, is_empty, trim_space, arith, Bool-cases, Option-cases, ok, Result-cases, ok_inj,
  some_inj, reverse, branch, drop_space,
}
use mathlib.Core.List.{reverse-cons}
use teen_dns.Platform.{Platform, to_lower}
use teen_dns.Setup.{
  Params, normalized, fitting_pair, replace_from, replace_texts, placeholders, render,
  windows_line_endings, validate_port, windows_install_bat, windows_remove_bat, breaks_line,
  or_text,
}

-- The number of line feeds.
unfoldable pub feeds : Text → ℕ
feeds [] = 0
feeds (c ∷ s) = let rest = feeds s in if eqb c 10 then rest + 1 else rest

feeds-append : (s t : Text) → feeds (s ++ t) ≡ feeds s + feeds t
unfolding feeds
feeds-append [] t = omega arith
feeds-append (c ∷ s) t = ground (arith, feeds-append s t)

-- The first `n` code points, and what is behind them.
unfoldable taken : ℕ → Text → Text
taken zero s = []
taken (suc n) [] = []
taken (suc n) (c ∷ s) = c ∷ taken n s

-- A text that is replaced is not empty, and has as many line feeds as what replaces it.
abbrev Level : Text × Text → Type 0
Level pair = (feeds pair.0 ≡ feeds pair.1) × (is_empty pair.0 ≡ false)

fitting_pair-Level :
    (pairs : List (Text × Text)) (s : Text) (pair : Text × Text)
    → All Level pairs
    → fitting_pair pairs s ≡ some pair
    → Level pair × (has_prefix s pair.0 ≡ true)
unfolding fitting_pair
fitting_pair-Level [] s pair a h = absurd (ground (arith, h))
fitting_pair-Level (p ∷ pairs) s pair a h = elim (Bool-cases (has_prefix s p.0)) [
  | inl fits ↦
      subst (λ (x : Text × Text). Level x × (has_prefix s x.0 ≡ true))
        (sym (some_inj p pair (rw fits at h))) (a.0, fits)
  | inr other ↦ fitting_pair-Level pairs s pair a.1 (rw other at h)
]

taken-prefix : (s x : Text) → has_prefix s x ≡ true → taken (length x) s ≡ x
unfolding has_prefix taken
taken-prefix s [] h = refl
taken-prefix [] (d ∷ x) h = absurd (ground (arith, h))
taken-prefix (c ∷ s) (d ∷ x) h = ground (arith, h, taken-prefix s x)

replaced-feeds :
    (c : ℕ) (s x y out : Text)
    → feeds x ≡ feeds y
    → has_prefix (c ∷ s) x ≡ true
    → is_empty x ≡ false
    → feeds (taken (length x - 1) s) + feeds out ≡ feeds s
    → feeds (y ++ out) ≡ feeds (c ∷ s)
unfolding feeds has_prefix is_empty
replaced-feeds c s [] y out level fits empty rest = absurd (ground (arith, empty))
replaced-feeds c s (d ∷ x) y out level fits empty rest =
    let both : (eqb c d ≡ true) × (has_prefix s x ≡ true) = ground (arith, fits) in
    let length_rest : length (d ∷ x) - 1 ≡ length x = omega arith in
    let left : feeds x + feeds out ≡ feeds s =
      subst (λ t. feeds t + feeds out ≡ feeds s) (taken-prefix s x both.1)
        (subst (λ n. feeds (taken n s) + feeds out ≡ feeds s) length_rest rest) in
    ground (arith, feeds-append y out, level, left, both.0)

-- Replacing keeps the number of line feeds, behind the part that is passed over.
replace_from-feeds :
    (pairs : List (Text × Text)) (skip : ℕ) (s : Text)
    → All Level pairs
    → feeds (taken skip s) + feeds (replace_from pairs skip s) ≡ feeds s
unfolding replace_from taken feeds
replace_from-feeds pairs zero [] a = refl
replace_from-feeds pairs (suc skip) [] a = refl
replace_from-feeds pairs (suc skip) (c ∷ s) a = ground (arith, replace_from-feeds pairs skip s a)
replace_from-feeds pairs zero (c ∷ s) a = elim (Option-cases (fitting_pair pairs (c ∷ s))) [
  | inl plain ↦
      let kept : replace_from pairs zero (c ∷ s) ≡ c ∷ replace_from pairs zero s =
        rw (plain, replace_from) refl in
      ground (arith, ap feeds kept, replace_from-feeds pairs zero s a)
  | inr (pair, found) ↦
      let level = fitting_pair-Level pairs (c ∷ s) pair a found in
      let rest = length pair.0 - 1 in
      let put : replace_from pairs zero (c ∷ s) ≡ pair.1 ++ replace_from pairs rest s =
        rw (found, replace_from) refl in
      let same : feeds (pair.1 ++ replace_from pairs rest s) ≡ feeds (c ∷ s) =
        replaced-feeds c s pair.0 pair.1 (replace_from pairs rest s) level.0.0 level.1 level.0.1
          (replace_from-feeds pairs rest s a) in
      omega (arith, ap feeds put, same)
]

replace_texts-feeds :
    (pairs : List (Text × Text)) (s : Text)
    → All Level pairs
    → feeds (replace_texts pairs s) ≡ feeds s
unfolding replace_texts taken feeds
replace_texts-feeds pairs s a = omega (arith, replace_from-feeds pairs zero s a)

windows_line_endings-feeds : (s : Text) → feeds (windows_line_endings s) ≡ feeds s
unfolding windows_line_endings feeds is_empty
windows_line_endings-feeds s =
    replace_texts-feeds ((10 ∷ [], 13 ∷ 10 ∷ []) ∷ []) _ ((refl, refl), tt)
    ∙ replace_texts-feeds ((13 ∷ 10 ∷ [], 10 ∷ []) ∷ []) s ((refl, refl), tt)

-- No value breaks a line.
abbrev OneLine : Params → Type 0
OneLine p =
    (feeds p.hostname ≡ 0) × (feeds p.ip ≡ 0) × (feeds p.port ≡ 0) × (feeds p.test_domain ≡ 0)

render-feeds :
    (template : Text) (p : Params) → OneLine p → feeds (render template p) ≡ feeds template
unfolding render feeds is_empty
render-feeds template p (host, ip, port, domain) =
    replace_texts-feeds (placeholders p) template
      ((sym host, refl), ((sym ip, refl), ((sym port, refl), ((sym domain, refl), tt))))

feeds-contains : (s : Text) → contains s 10 ≡ false → feeds s ≡ 0
unfolding feeds contains any
feeds-contains [] h = refl
feeds-contains (c ∷ s) h =
    let both : (eqb c 10 ≡ false) × (any (eqb 10) s ≡ false) = ground (arith, h) in
    rw both.0 (feeds-contains s both.1)

feeds-breaks_line : (s : Text) → breaks_line s ≡ false → feeds s ≡ 0
unfolding contains_any any
feeds-breaks_line s h = feeds-contains s (ground (arith, h))

feeds-reverse : (s : Text) → feeds (reverse s) ≡ feeds s
unfolding feeds
feeds-reverse [] = refl
feeds-reverse (c ∷ s) =
    let turned : feeds (reverse s ++ c ∷ []) ≡ feeds (reverse s) + feeds (c ∷ []) =
      feeds-append (reverse s) (c ∷ []) in
    ap feeds (reverse-cons c s) ∙ ground (arith, turned, feeds-reverse s)

feeds-drop_space : (s : Text) → feeds (drop_space s) ≤ feeds s
unfolding feeds drop_space
feeds-drop_space [] = omega arith
feeds-drop_space (c ∷ s) = ground (arith, feeds-drop_space s)

feeds-trim_space : (s : Text) → feeds s ≡ 0 → feeds (trim_space s) ≡ 0
unfolding trim_space
feeds-trim_space s h = omega (
  arith,
  h,
  feeds-drop_space s,
  feeds-reverse (drop_space s),
  feeds-drop_space (reverse (drop_space s)),
  feeds-reverse (drop_space (reverse (drop_space s))),
)

feeds-or_text :
    (fallback value : Text)
    → feeds fallback ≡ 0
    → feeds value ≡ 0
    → feeds (or_text fallback value) ≡ 0
feeds-or_text fallback value f v = branch (λ (x : Text). feeds x ≡ 0) (is_empty value) f v

four_false :
    (a b c d : Bool)
    → (a || (b || (c || (d || false)))) ≡ false
    → (a ≡ false) × (b ≡ false) × (c ≡ false) × (d ≡ false)
four_false a b c d h = ground (arith, h)

normalized-OneLine : (env : Platform) (p q : Params) → normalized env p ≡ ok q → OneLine q
unfolding normalized any feeds
normalized-OneLine env p q h =
    let host = to_lower env (trim_space p.hostname) in
    elim (Bool-cases (is_empty host)) [
      | inl missing ↦ absurd (ground (arith, missing, h))
      | inr there ↦
          elim (Bool-cases (any breaks_line (host ∷ p.ip ∷ p.port ∷ p.test_domain ∷ []))) [
            | inl broken ↦ absurd (ground (arith, there, broken, h))
            | inr whole ↦ elim (Bool-cases (contains_any host (32 ∷ 9 ∷ []))) [
              | inl spaced ↦ absurd (ground (arith, there, whole, spaced, h))
              | inr single ↦
                  let lines : (breaks_line host ≡ false)
                      × (breaks_line p.ip ≡ false)
                      × (breaks_line p.port ≡ false)
                      × (breaks_line p.test_domain ≡ false) =
                    four_false (breaks_line host) (breaks_line p.ip) (breaks_line p.port)
                      (breaks_line p.test_domain) whole in
                  subst OneLine (ok_inj _ q (rw (there, whole, single) at h)) (
                    feeds-breaks_line host lines.0,
                    feeds-trim_space p.ip (feeds-breaks_line p.ip lines.1),
                    feeds-or_text _ _ refl
                        (feeds-trim_space p.port (feeds-breaks_line p.port lines.2)),
                    feeds-or_text _ _ refl
                        (feeds-trim_space p.test_domain (feeds-breaks_line p.test_domain lines.3)),
                  )
            ]
          ]
    ]

-- Whatever the hostname, the address, the port and the test domain are, an installation script that is
-- made has exactly as many line feeds as its template, so that no value can add a command on a line
-- of its own; and so has a removal script.
pub windows_bat-feeds :
    (env : Platform) (install remove : Text) (p : Params)
    → ((out : Text) → windows_install_bat env install p ≡ ok out → feeds out ≡ feeds install)
      × ((out : Text) → windows_remove_bat env remove p ≡ ok out → feeds out ≡ feeds remove)
unfolding windows_install_bat windows_remove_bat
windows_bat-feeds env install remove p = (
  λ out h. elim (Result-cases (normalized env p)) [
    | inr (e, bad) ↦ absurd (ground (arith, bad, h))
    | inl (q, good) ↦ elim (Result-cases (validate_port q.port)) [
      | inr (e, bad) ↦ absurd (ground (arith, good, bad, h))
      | inl (u, valid) ↦ elim (Bool-cases (is_empty q.ip)) [
        | inl missing ↦ absurd (ground (arith, good, valid, missing, h))
        | inr there ↦
            ap feeds (sym (ok_inj _ out (rw (good, valid, there) at h)))
            ∙ windows_line_endings-feeds (render install q)
            ∙ render-feeds install q (normalized-OneLine env p q good)
      ]
    ]
  ],
  λ out h. elim (Result-cases (normalized env p)) [
    | inr (e, bad) ↦ absurd (ground (arith, bad, h))
    | inl (q, good) ↦
        ap feeds (sym (ok_inj _ out (rw good at h)))
        ∙ windows_line_endings-feeds (render remove q)
        ∙ render-feeds remove q (normalized-OneLine env p q good)
  ],
)
