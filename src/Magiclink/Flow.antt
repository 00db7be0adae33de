-- ===== src/Magiclink/Flow.antt =====
-- From an issued link to a session and back to the house.
use teen_dns.Base.{
  ◌+◌, ◌≤◌, ◌<◌, ◌≡◌, refl, false, ltb, leb, if◌then◌else◌, length, none, some, Text, arith, lookup,
  delete, lookup-insert_self, lookup-retain, text_eq, ok,
}
use teen_dns.Platform.{Instant}
use teen_dns.Magiclink.{
  Manager, HouseRecord, max_pending_links, cleanup, issue_link, add_link, redeem, mint,
  start_session, house_id, live,
}

cleanup-link :
    (m : Manager) (link : Text) (r : HouseRecord) (now : Instant)
    → lookup link m.links ≡ some r
    → now ≤ r.expires_at
    → lookup link (cleanup m now).links ≡ some r
unfolding cleanup
cleanup-link m link r now h hn = rw (lookup-retain (live now) link m.links, h) (ground arith)

start_session-resolves :
    (m : Manager) (r : HouseRecord) (s : Text) (later at : Instant)
    → let done = start_session m r later (some s) in
      (done.1 ≡ some (r.house_id, s))
      × ((house_id done.0 s at).1
          ≡ (if ltb (later + m.session_ttl) at then none else some r.house_id))
unfolding start_session house_id cleanup
start_session-resolves m r s later at =
    (refl, rw (lookup-retain (live at) s _, lookup-insert_self s _ m.sessions) (ground arith))

-- A link that is stored and has not run out is exchanged for a session of its house.
redeem-stored :
    (m : Manager) (link s : Text) (r : HouseRecord) (now later at : Instant)
    → lookup link m.links ≡ some r
    → now ≤ r.expires_at
    → later ≤ r.expires_at
    → let done = redeem m link now later (some s) in
      (done.1 ≡ some (r.house_id, s))
      × ((house_id done.0 s at).1
          ≡ (if ltb (later + m.session_ttl) at then none else some r.house_id))
unfolding redeem mint cleanup
redeem-stored m link s r now later at h hn hl =
    let in_time : ltb r.expires_at later ≡ false = ground arith in
    rw (cleanup-link m link r now h hn, redeem, in_time, mint)
      (start_session-resolves (record (cleanup m now) { links = delete link (cleanup m now).links })
        r s later at)

-- With room for another link, an issued token is redeemed until it runs out, for a session that
-- resolves to the house it was issued for until the session runs out, and to no house afterwards.
pub issue-redeem-resolve :
    (m : Manager) (house link s : Text) (now later now' later' at : Instant)
    → length (cleanup m now).links < max_pending_links
    → now' ≤ later + m.link_ttl
    → later' ≤ later + m.link_ttl
    → let issued = issue_link m house now later (some link) in
      let done = redeem issued.0 link now' later' (some s) in
      (issued.1 ≡ ok link)
      × (done.1 ≡ some (house, s))
      × ((house_id done.0 s at).1 ≡ (if ltb (later' + m.session_ttl) at then none else some house))
unfolding issue_link add_link cleanup
issue-redeem-resolve m house link s now later now' later' at room hn hl =
    let open_slot : leb max_pending_links (length (cleanup m now).links) ≡ false = ground arith in
    let (done, found) =
      redeem-stored (add_link (cleanup m now) house later (some link)).0 link s
        (record { house_id = house; expires_at = later + m.link_ttl }) now' later' at
        (lookup-insert_self link _ (cleanup m now).links) hn hl in
    rw open_slot (refl, done, found)
