-- ===== src/Magiclink/Histories.antt =====
-- Any history of operations: pending links stay bounded, and a link is redeemed once at most.
use teen_dns.Base.{
  ◌+◌, ◌≤◌, ◌≡◌, refl, ap, ◌∙◌, inl, inr, false, leb, if◌then◌else◌, List, [], ◌∷◌, length, All,
  Option, none, some, Text, texts_equal, texts_equal_iff, arith, Bool-cases, Option-cases, lookup,
  delete, lookup-insert, lookup-delete, lookup-retain, length-insert, length-delete-le,
  length-retain-le, text_eq,
}
use teen_dns.Platform.{Instant}
use teen_dns.Magiclink.{
  Manager, HouseRecord, max_pending_links, cleanup, issue_link, add_link, redeem, mint,
  start_session, house_id,
}

-- The calls of the three methods, each with its clock readings and its random token.
pub data Call : Type 0 where
  issues : Text → Instant → Instant → Option Text → Call
  redeems : Text → Instant → Instant → Option Text → Call
  resolves : Text → Instant → Call

unfoldable pub step : Manager → Call → Manager
step m (issues house now later token) = (issue_link m house now later token).0
step m (redeems link now later token) = (redeem m link now later token).0
step m (resolves session now) = (house_id m session now).0

unfoldable pub run : Manager → List Call → Manager
run m [] = m
run m (c ∷ cs) = run (step m c) cs

-- The call draws no token that is `link`: sixteen random bytes do not repeat.
abbrev pub Fresh : Text → Call → Type 0
Fresh link (issues house now later (some t)) = texts_equal t link ≡ false
Fresh link _ = Unit

cleanup-links :
    (m : Manager) (now : Instant) (k : Text)
    → lookup k m.links ≡ none
    → lookup k (cleanup m now).links ≡ none
unfolding cleanup
cleanup-links m now k h = rw (lookup-retain _ k m.links, h)

length-cleanup-le : (m : Manager) (now : Instant) → length (cleanup m now).links ≤ length m.links
unfolding cleanup
length-cleanup-le m now = length-retain-le _ m.links

add_link-gone :
    (m : Manager) (house : Text) (later : Instant) (token : Option Text) (k : Text)
    → Fresh k (issues house later later token)
    → lookup k m.links ≡ none
    → lookup k (add_link m house later token).0.links ≡ none
unfolding add_link
add_link-gone m house later none k f h = h
add_link-gone m house later (some t) k f h = rw (lookup-insert t k _ m.links, f, h)

mint-links :
    (m : Manager) (r : HouseRecord) (later : Instant) (token : Option Text)
    → (mint m r later token).0.links ≡ m.links
unfolding mint start_session
mint-links m r later none = ground arith
mint-links m r later (some t) = ground arith

-- What an operation does to the links, beside the addition of one.
redeem-links :
    (m : Manager) (link : Text) (now later : Instant) (token : Option Text) (k : Text)
    → lookup k (redeem m link now later token).0.links
      ≡ (if texts_equal link k then none else lookup k (cleanup m now).links)
unfolding redeem
redeem-links m link now later token k = elim (Option-cases (lookup link (cleanup m now).links)) [
  | inl e ↦
      rw (e, redeem)
        (ground (arith, e, texts_equal_iff link k, ap (λ x. lookup x (cleanup m now).links)))
  | inr (r, e) ↦
      rw (e, redeem)
        (ap (lookup k) (
            mint-links (record (cleanup m now) { links = delete link (cleanup m now).links }) r
              later token)
          ∙ lookup-delete link k (cleanup m now).links)
]

issue-gone :
    (m : Manager) (house : Text) (now later : Instant) (token : Option Text) (k : Text)
    → Fresh k (issues house now later token)
    → lookup k m.links ≡ none
    → lookup k (issue_link m house now later token).0.links ≡ none
unfolding issue_link
issue-gone m house now later token k f h =
    elim (Bool-cases (leb max_pending_links (length (cleanup m now).links))) [
      | inl full ↦ rw full (cleanup-links m now k h)
      | inr room ↦
          rw room (add_link-gone (cleanup m now) house later token k f (cleanup-links m now k h))
    ]

step-gone :
    (m : Manager) (c : Call) (k : Text)
    → Fresh k c
    → lookup k m.links ≡ none
    → lookup k (step m c).links ≡ none
unfolding step house_id
step-gone m (issues house now later token) k f h = issue-gone m house now later token k f h
step-gone m (redeems link now later token) k f h =
    redeem-links m link now later token k ∙ ground (arith, cleanup-links m now k h)
step-gone m (resolves session now) k f h = cleanup-links m now k h

run-gone :
    (m : Manager) (cs : List Call) (k : Text)
    → All (Fresh k) cs
    → lookup k m.links ≡ none
    → lookup k (run m cs).links ≡ none
unfolding run
run-gone m [] k f h = h
run-gone m (c ∷ cs) k f h = run-gone (step m c) cs k f.1 (step-gone m c k f.0 h)

redeem-none :
    (m : Manager) (link : Text) (now later : Instant) (token : Option Text)
    → lookup link m.links ≡ none
    → (redeem m link now later token).1 ≡ none
unfolding redeem
redeem-none m link now later token h = rw (cleanup-links m now link h, redeem)

-- A login link works once: after Redeem was called with it, whatever the outcome, no later Redeem
-- of it returns a session, after any further calls that do not draw the same token again.
pub redeem-one_time :
    (m : Manager) (link : Text) (now later now' later' : Instant) (token token' : Option Text)
    (cs : List Call)
    → All (Fresh link) cs
    → (redeem (run (redeem m link now later token).0 cs) link now' later' token').1 ≡ none
redeem-one_time m link now later now' later' token token' cs f =
    redeem-none _ link now' later' token' (
      run-gone _ cs link f
        (redeem-links m link now later token link ∙ rw ((texts_equal_iff link link).1 refl)))

redeem-length-le :
    (m : Manager) (link : Text) (now later : Instant) (token : Option Text)
    → length (redeem m link now later token).0.links ≤ length m.links
unfolding redeem
redeem-length-le m link now later token = elim (Option-cases (lookup link (cleanup m now).links)) [
  | inl e ↦ rw (e, redeem) (length-cleanup-le m now)
  | inr (r, e) ↦
      let left = record (cleanup m now) { links = delete link (cleanup m now).links } in
      rw (e, redeem)
        (omega (
          arith,
          ap length (mint-links left r later token),
          length-delete-le link (cleanup m now).links,
          length-cleanup-le m now,
        ))
]

add_link-length :
    (m : Manager) (house : Text) (later : Instant) (token : Option Text)
    → length (add_link m house later token).0.links ≤ length m.links + 1
unfolding add_link
add_link-length m house later none = omega arith
add_link-length m house later (some t) = length-insert t _ m.links

step-bounded :
    (m : Manager) (c : Call)
    → length m.links ≤ max_pending_links
    → length (step m c).links ≤ max_pending_links
unfolding step house_id issue_link
step-bounded m (issues house now later token) h =
    ground (arith, length-cleanup-le m now, add_link-length (cleanup m now) house later token)
step-bounded m (redeems link now later token) h =
    omega (arith, redeem-length-le m link now later token)
step-bounded m (resolves session now) h = omega (arith, length-cleanup-le m now)

-- From a state with at most ten thousand pending links, no history of calls makes more than ten
-- thousand pending.
pub run-links_bounded :
    (m : Manager) (cs : List Call)
    → length m.links ≤ max_pending_links
    → length (run m cs).links ≤ max_pending_links
unfolding run
run-links_bounded m [] h = h
run-links_bounded m (c ∷ cs) h = run-links_bounded (step m c) cs (step-bounded m c h)
