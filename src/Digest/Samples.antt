-- ===== src/Digest/Samples.antt =====
-- A week of one household, and each theorem at it.
use teen_dns.Base.{
  ◌+◌, ◌≡◌, refl, true, false, any, [], ◌∷◌, none, codes, texts_equal, is_empty, arith, lookup,
  insert, delete, retain, text_eq, List,
}
use teen_dns.Platform.{Platform}
use teen_dns.Policy.{observe, block, is_observe}
use teen_dns.Config.{House, Config}
use teen_dns.Gateway.{Event}
use teen_dns.Digest.{
  Key, Store, key_eq, keys_equal, new_store, load_entries, load_sent, snapshot_entries, save,
  recorded, write, period_for, is_due, complete_digest, forget,
}
use teen_dns.Digest.Kept.{Call, writes, completes, run, step, Same, run-reload}
use teen_dns.Digest.Counts.{count_at, write_all, events_at, write_all-count_at}
use teen_dns.Digest.Report.{
  gather, add_count, category_list, domain_list, text_less, place_domain, sort_domains,
  place_category, sort_digests, digest,
}
use teen_dns.Digest.Report.Sums.{reported, observed_sum, in_domains, digest-observed_sum}
use teen_dns.Digest.Scheduler.{
  Outside, profile_ids_for_house, due_house, check_house, check_houses, check_and_send,
}
use teen_dns.Digest.Scheduler.Letters.{Once, check_and_send-Once}

digest_run : Unit {0}
unfolding any texts_equal is_empty lookup insert delete retain is_observe keys_equal new_store
    load_entries load_sent snapshot_entries save recorded write period_for is_due complete_digest
    forget run step write_all events_at gather add_count category_list domain_list text_less
    place_domain sort_domains place_category sort_digests digest reported observed_sum in_domains
    profile_ids_for_house due_house check_house check_houses check_and_send
digest_run = tt

abbrev machine : Platform
machine = record {
  lower_rune = λ c. c;
  known_zone = λ zone. true;
  local_time = λ zone at. record { weekday = 0; hour = 8; minute = 0 };
}

abbrev watched : Event
watched = record {
  timestamp = 5;
  profile_id = codes "ana";
  query = codes "a.video.test";
  query_type = 1;
  action = observe;
  category = codes "video";
  reason = codes "Talk";
  matched_domain = codes "video.test";
  group_name = codes "Video";
  policy_version = 1;
}

abbrev ignored : Event
ignored = record watched { action = block }

abbrev fresh : Store
fresh = record { path = codes "file"; entries = []; last_sent_at = []; disk = none }

abbrev spot : Key
spot = record { profile_id = codes "ana"; period = codes "manha"; domain = codes "video.test" }

seen : Store
seen = write_all machine fresh (watched ∷ ignored ∷ watched ∷ [])

seen_twice : count_at seen spot ≡ 2
unfolding digest_run seen
seen_twice = refl

write_all-count_at_example :
    count_at seen spot ≡ 0 + events_at machine spot (watched ∷ ignored ∷ watched ∷ [])
unfolding seen lookup
write_all-count_at_example =
    write_all-count_at machine fresh (watched ∷ ignored ∷ watched ∷ []) spot

abbrev history : List Call
history =
    writes watched ∷ completes (codes "house") (codes "bia" ∷ []) 7 false ∷ writes watched ∷ []

run-reload_example :
    Same
      (new_store
        (run machine (new_store (codes "file") none) history).path
        (save (run machine (new_store (codes "file") none) history) true).0.disk)
      (run machine (new_store (codes "file") none) history)
unfolding is_empty
run-reload_example = run-reload machine (codes "file") history refl

digest-observed_sum_example :
    reported (codes "video") (codes "video.test") (codes "manha") (digest seen (codes "ana" ∷ []))
    ≡ observed_sum
        (codes "ana" ∷ [])
        (codes "video")
        (codes "video.test")
        (codes "manha")
        seen.entries
digest-observed_sum_example =
    digest-observed_sum seen (codes "ana" ∷ []) (codes "video") (codes "video.test") (codes "manha")

abbrev house : House
house = record {
  id = codes "house";
  name = codes "House";
  admin_token_hash = [];
  time_zone = [];
  email = codes "a@b.test";
  emails = [];
}

abbrev config : Config
config = record {
  listen = codes ":853";
  upstream = codes "up";
  certificate = codes "c";
  private_key = codes "k";
  max_ttl = 300;
  houses = house ∷ house ∷ [];
  invitations = [];
  waitlist = [];
  profiles = [];
}

abbrev delivers : Outside
delivers = record { sends = λ l. true; writable = λ l. true }

check_and_send-Once_example :
    Once delivers config.profiles 9 5
      (omega arith)
      (codes "house")
      seen
      (check_and_send delivers config 9 5 seen).0
      (check_and_send delivers config 9 5 seen).1
check_and_send-Once_example =
    check_and_send-Once delivers config 9 5 (omega arith) seen (codes "house")
