-- ===== src/Magiclink/Samples.antt =====
-- A login link from its start to its end, and each theorem at it.
use teen_dns.Base.{
  ◌≡◌, refl, [], ◌∷◌, none, some, Text, codes, texts_equal, lookup, insert, delete, retain, text_eq,
  arith,
}
use teen_dns.Magiclink.{
  Manager, new_manager, cleanup, add_link, issue_link, start_session, mint, redeem, house_id,
}
use teen_dns.Magiclink.Histories.{issues, resolves, step, run, redeem-one_time}
use teen_dns.Magiclink.Flow.{issue-redeem-resolve}

link_run : Unit {0}
unfolding texts_equal lookup insert delete retain new_manager cleanup add_link issue_link
    start_session mint redeem house_id step run
link_run = tt

start : Manager
start = new_manager 900 43200

abbrev link : Text
link = codes "link"

issued : Manager
unfolding start
issued = (issue_link start (codes "house") 5 6 (some link)).0

redeem-one_time_example :
    (redeem
      (run
        (redeem issued link 10 11 (some (codes "s"))).0
        (issues (codes "other") 12 12 (some (codes "next")) ∷ resolves (codes "s") 13 ∷ []))
      link
      14
      15
      (some (codes "t"))).1
    ≡ none
unfolding link_run issued
redeem-one_time_example =
    redeem-one_time issued link 10 11 14 15 (some (codes "s")) (some (codes "t"))
      (issues (codes "other") 12 12 (some (codes "next")) ∷ resolves (codes "s") 13 ∷ [])
      (refl, (tt, tt))

issue-redeem-resolve_example :
    (house_id (redeem issued link 10 11 (some (codes "s"))).0 (codes "s") 43000).1
    ≡ some (codes "house")
unfolding link_run issued
issue-redeem-resolve_example =
    (issue-redeem-resolve start (codes "house") link (codes "s") 5 6 10 11 43000 (omega arith)
      (omega arith) (omega arith)).2
