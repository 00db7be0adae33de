-- ===== src/Config/Domains.antt =====
-- What loadDomains takes from a file.
use teen_dns.Base.{
  ◌≡◌, ◌↔◌, ◌≢◌, refl, ap, sym, ◌∙◌, inl, inr, Bool, false, ◌||◌, any, List, [], ◌∷◌, All, In,
  Pairs, Text, texts_equal, texts_equal_iff, is_empty, trim_space, arith, Bool-cases,
}
use teen_dns.Platform.{Platform, to_lower}
use teen_dns.Config.{is_comment, domains_of, load_domains}

-- The line gives a domain: it is not blank and no comment.
abbrev pub Gives : Platform → Text → List Text → Type 0
Gives env d lines =
    (raw : Text) × In raw lines
    × (to_lower env (trim_space raw) ≡ d)
    × (is_empty d ≡ false)
    × (is_comment d ≡ false)

unseen_tail :
    (line : Text) (seen ds : List Text)
    → All (λ d. any (texts_equal d) (line ∷ seen) ≡ false) ds
    → All (λ d. any (texts_equal d) seen ≡ false) ds × All (λ d. line ≢ d) ds
unfolding any
unseen_tail line seen [] h = (tt, tt)
unseen_tail line seen (d ∷ ds) h =
    let (rest, apart) = unseen_tail line seen ds h.1 in
    (
      (ground (arith, h.0), rest),
      ((λ e. ground (arith, h.0, (texts_equal_iff d line).1 (sym e))), apart),
    )

module _ (env : Platform) where
  abbrev line_of : Text → Text
  line_of raw = to_lower env (trim_space raw)

  abbrev skips : List Text → Text → Bool
  skips seen raw =
      is_empty (line_of raw) || is_comment (line_of raw) || any (texts_equal (line_of raw)) seen

  domains_of-seen :
      (seen lines : List Text)
      → All (λ d. any (texts_equal d) seen ≡ false) (domains_of env seen lines)
  unfolding domains_of
  domains_of-seen seen [] = tt
  domains_of-seen seen (raw ∷ lines) = elim (Bool-cases (skips seen raw)) [
    | inl skip ↦ rw skip (domains_of-seen seen lines)
    | inr keep ↦ rw keep (
      ground (arith, keep),
      (unseen_tail (line_of raw) seen _ (domains_of-seen (line_of raw ∷ seen) lines)).0,
    )
  ]

  domains_of-distinct : (seen lines : List Text) → Pairs (λ a b. a ≢ b) (domains_of env seen lines)
  unfolding domains_of
  domains_of-distinct seen [] = tt
  domains_of-distinct seen (raw ∷ lines) = elim (Bool-cases (skips seen raw)) [
    | inl skip ↦ rw skip (domains_of-distinct seen lines)
    | inr keep ↦ rw keep (
      (unseen_tail (line_of raw) seen _ (domains_of-seen (line_of raw ∷ seen) lines)).1,
      domains_of-distinct (line_of raw ∷ seen) lines,
    )
  ]

  domains_of-given :
      (seen lines : List Text) (d : Text) → In d (domains_of env seen lines) → Gives env d lines
  unfolding domains_of
  domains_of-given seen [] d i = absurd i.0
  domains_of-given seen (raw ∷ lines) d i = elim (Bool-cases (skips seen raw)) [
    | inl skip ↦
        let (r, j, e, full, plain) = domains_of-given seen lines d (rw skip at i) in
        (r, inr j, e, full, plain)
    | inr keep ↦ elim (rw keep at i) [
      | inl e ↦ (
        raw,
        inl refl,
        sym e,
        ground (arith, keep, ap is_empty e),
        ground (arith, keep, ap is_comment e),
      )
      | inr j ↦
          let (r, k, e, full, plain) = domains_of-given (line_of raw ∷ seen) lines d j in
          (r, inr k, e, full, plain)
    ]
  ]

  domains_of-takes :
      (seen lines : List Text) (d : Text)
      → Gives env d lines
      → any (texts_equal d) seen ≡ false
      → In d (domains_of env seen lines)
  unfolding domains_of any
  domains_of-takes seen [] d (r, i, _, _, _) new = absurd i.0
  domains_of-takes seen (raw ∷ lines) d (r, inl here, e, full, plain) new =
      let line : line_of raw ≡ d = ap line_of (sym here) ∙ e in
      let keep : skips seen raw ≡ false =
        ap (λ x. is_empty x || is_comment x || any (texts_equal x) seen) line ∙ ground arith in
      rw keep (inl (sym line))
  domains_of-takes seen (raw ∷ lines) d (r, inr i, e, full, plain) new =
      elim (Bool-cases (skips seen raw)) [
        | inl skip ↦ rw skip (domains_of-takes seen lines d (r, i, e, full, plain) new)
        | inr keep ↦ elim (Bool-cases (texts_equal d (line_of raw))) [
          | inl same ↦ rw keep (inl ((texts_equal_iff d (line_of raw)).0 same))
          | inr other ↦ rw keep (
              inr (
                domains_of-takes (line_of raw ∷ seen) lines d (r, i, e, full, plain)
                  (ground (arith, other, new))))
        ]
      ]

  -- loadDomains takes exactly the domains that the lines give, in lower case and without the space
  -- round them, blank lines and comments left out, and each of them once.
  pub load_domains_lem :
      (lines : List Text)
      → ((d : Text) → In d (load_domains env lines) ↔ Gives env d lines)
        × Pairs (λ a b. a ≢ b) (load_domains env lines)
  unfolding load_domains any
  load_domains_lem lines = (
    λ d. (domains_of-given [] lines d, λ g. domains_of-takes [] lines d g refl),
    domains_of-distinct [] lines,
  )
