-- ===== src/Digest/Scheduler/Letters.antt =====
-- Which households get a letter, and what it takes out of the store.
use teen_dns.Base.{
  and_true, ℕ, ◌+◌, ◌≤◌, ◌<◌, ◌≡◌, refl, ap, sym, ◌∙◌, inl, inr, Bool, true, false, leb,
  if◌then◌else◌, List, [], ◌∷◌, ◌++◌, Option, none, some, Text, texts_equal, texts_equal_iff, arith,
  Bool-cases, lookup, lookup-insert, text_eq,
}
use teen_dns.Platform.{Instant}
use teen_dns.Policy.{Profile}
use teen_dns.Config.{House, Config}
use teen_dns.Digest.{Store, key_eq, is_due, complete_digest}
use teen_dns.Digest.Counts.{save-sent}
use teen_dns.Digest.Scheduler.{
  Letter, Outside, profile_ids_for_house, letter_for, due_house, check_house, check_houses,
  check_and_send,
}

-- The letters of a pass that went to one household.
unfoldable pub letters_to : Text → List Letter → ℕ
letters_to house [] = 0
letters_to house (l ∷ ls) =
    let rest = letters_to house ls in if texts_equal l.house_id house then rest + 1 else rest

letters_to-append :
    (house : Text) (ls ms : List Letter)
    → letters_to house (ls ++ ms) ≡ letters_to house ls + letters_to house ms
unfolding letters_to
letters_to-append house [] ms = omega arith
letters_to-append house (l ∷ ls) ms = ground (arith, letters_to-append house ls ms)

complete-sent :
    (s : Store) (house other : Text) (ids : List Text) (at : Instant) (writable : Bool)
    → lookup other (complete_digest s house ids at writable).0.last_sent_at
      ≡ (if texts_equal house other then some at else lookup other s.last_sent_at)
unfolding complete_digest
complete-sent s house other ids at writable =
    ap (lookup other) (save-sent _ writable) ∙ lookup-insert house other at s.last_sent_at

-- Whether a household is due depends on its sending time only.
abbrev due_at : Instant → ℕ → Option Instant → Bool
due_at now interval o = elim o [ none ↦ true | some last ↦ leb (last + interval) now ]

is_due-due_at :
    (s : Store) (house : Text) (now interval : ℕ)
    → is_due s house now interval ≡ due_at now interval (lookup house s.last_sent_at)
unfolding is_due
is_due-due_at s house now interval = refl

module _ (outside : Outside) (ps : List Profile) (now interval : ℕ) (positive : 0 < interval) where
  -- What one step of the loop does to a household: a letter goes out only if it was due, and then
  -- it is due no more; without a letter nothing changes for it.
  pub record Once (house : Text) (s t : Store) (ls : List Letter) : Type 0 where
    pub count : letters_to house ls ≤ 1
    pub due : 0 < letters_to house ls → is_due s house now interval ≡ true
    pub done : 0 < letters_to house ls → is_due t house now interval ≡ false
    pub same : letters_to house ls ≡ 0 → lookup house t.last_sent_at ≡ lookup house s.last_sent_at

  Once-nothing : (house : Text) (s : Store) → Once house s s []
  unfolding letters_to
  Once-nothing house s = record {
    count = omega arith;
    due = λ h. ground arith;
    done = λ h. ground arith;
    same = λ h. refl;
  }

  Once-sent :
      (s : Store) (h : House) (house : Text) (ids : List Text) (writable : Bool) (l : Letter)
      → l.house_id ≡ h.id
      → is_due s h.id now interval ≡ true
      → Once house s (complete_digest s h.id ids now writable).0 (l ∷ [])
  unfolding letters_to
  Once-sent s h house ids writable l own was_due =
      let entry = complete-sent s h.id house ids now writable in
      let after = is_due-due_at (complete_digest s h.id ids now writable).0 house now interval in
      let id_iff = texts_equal_iff h.id house in
      let own_iff = texts_equal_iff l.house_id house in
      elim (Bool-cases (texts_equal h.id house)) [
        | inl same ↦
            let here : h.id ≡ house = id_iff.0 same in
            let one : texts_equal l.house_id house ≡ true = own_iff.1 (own ∙ here) in
            let chosen : (if texts_equal h.id house then some now else lookup house s.last_sent_at)
                ≡ some now =
              rw same refl in
            record {
              count = rw one (omega arith);
              due = λ _. ap (λ x. is_due s x now interval) (sym here) ∙ was_due;
              done = λ _. after ∙ ap (due_at now interval) (entry ∙ chosen) ∙ ground arith;
              same = λ h. ground (arith, one, h);
            }
        | inr other ↦
            let none_here : texts_equal l.house_id house ≡ false =
              ap (λ x. texts_equal x house) own ∙ other in
            record {
              count = rw none_here (omega arith);
              due = λ h. ground (arith, none_here, h);
              done = λ h. ground (arith, none_here, h);
              same = λ _. entry ∙ rw other refl;
            }
      ]

  Once-check :
      (s : Store) (h : House) (house : Text)
      → Once house s
          (check_house outside ps now interval s h).0
          (check_house outside ps now interval s h).1
  unfolding check_house
  Once-check s h house = elim (Bool-cases (due_house s now interval h)) [
    | inr later ↦ rw (later, check_house) (Once-nothing house s)
    | inl now_due ↦ elim (Bool-cases (outside.sends (letter_for s ps h))) [
      | inr failed ↦ rw (now_due, check_house, failed) (Once-nothing house s)
      | inl sent ↦
          rw (now_due, check_house, sent)
            (Once-sent s h house (profile_ids_for_house ps h.id)
              (outside.writable (letter_for s ps h)) (letter_for s ps h) refl
              (and_true _ _ now_due).1)
    ]
  ]

  Once-then :
      (house : Text) (s t u : Store) (ls ms : List Letter)
      → Once house s t ls
      → Once house t u ms
      → Once house s u (ls ++ ms)
  Once-then house s t u ls ms a b =
      let sum = letters_to-append house ls ms in
      let ta = is_due-due_at t house now interval in
      let sa = is_due-due_at s house now interval in
      let ua = is_due-due_at u house now interval in
      elim (Bool-cases (is_due t house now interval)) [
        | inl due ↦
            let before : letters_to house ls ≡ 0 = ground (arith, a.done, due) in
            let kept : lookup house t.last_sent_at ≡ lookup house s.last_sent_at = a.same before in
            record {
              count = omega (arith, sum, before, b.count);
              due = λ _. sa ∙ ap (due_at now interval) (sym kept) ∙ sym ta ∙ due;
              done = λ h. b.done (omega (arith, sum, before, h));
              same = λ h. b.same (omega (arith, sum, before, h)) ∙ kept;
            }
        | inr over ↦
            let after : letters_to house ms ≡ 0 = ground (arith, b.due, over) in
            let kept : lookup house u.last_sent_at ≡ lookup house t.last_sent_at = b.same after in
            record {
              count = omega (arith, sum, after, a.count);
              due = λ h. a.due (omega (arith, sum, after, h));
              done = λ _. ua ∙ ap (due_at now interval) kept ∙ sym ta ∙ over;
              same = λ h. kept ∙ a.same (omega (arith, sum, after, h));
            }
      ]

  Once-houses :
      (s : Store) (hs : List House) (house : Text)
      → Once house s
          (check_houses outside ps now interval s hs).0
          (check_houses outside ps now interval s hs).1
  unfolding check_houses
  Once-houses s [] house = Once-nothing house s
  Once-houses s (h ∷ hs) house =
      Once-then house s _ _ _ _ (Once-check s h house)
        (Once-houses (check_house outside ps now interval s h).0 hs house)

-- With a positive interval, a pass of the scheduler sends a household at most one letter, even
-- where two records share its id, and only if it was due; a household that got one is not due
-- again at that time, and one that got none keeps its sending time.
pub check_and_send-Once :
    (outside : Outside) (cfg : Config) (now interval : ℕ) (positive : 0 < interval) (s : Store)
    (house : Text)
    → Once outside cfg.profiles now interval positive house s
        (check_and_send outside cfg now interval s).0
        (check_and_send outside cfg now interval s).1
unfolding check_and_send
check_and_send-Once outside cfg now interval positive s house =
    Once-houses outside cfg.profiles now interval positive s cfg.houses house
