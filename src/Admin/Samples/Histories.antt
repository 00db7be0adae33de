-- ===== src/Admin/Samples/Histories.antt =====
-- A family that joins and sets itself up, without the operator's token.
use teen_dns.Base.{
  refl, ◌∷◌, [], none, some, codes, texts_equal, true, trim_prefix, strip_prefix, List,
}
use teen_dns.Admin.Server.{
  Settings, State, Inputs, Call, open_call, scoped_call, join_house, ask_link, on_profiles,
  drop_house, run,
}
use teen_dns.Admin.Server.Grown.{Grown}
use teen_dns.Admin.Server.Histories.{run-Grown}
use teen_dns.Admin.Samples.{
  machine, config, begin, form, supplies, same, nothing_observed, sessions,
}
use teen_dns.Admin.Samples.Requests.{pairings, sent}

abbrev settings : Settings
settings = record {
  env = machine;
  hash = same;
  equal_fold = texts_equal;
  suffix = codes "dns.test";
  token = codes "operator";
  site = record {
    public_url = [];
    host = codes "h.test";
    query_escape = same;
    escape_string = same;
  };
  files = record {
    join = λ dir file. file;
    lines = λ path. none;
    presets = λ path. none;
    services = λ path. none;
  };
  catalog_dir = [];
}

abbrev server : State
server = record {
  control = begin;
  links = sessions;
  pairings = pairings;
  observed = nothing_observed;
  events = [];
}

abbrev outside : Inputs
outside = record {
  asked_at = 8;
  now = 8;
  later = 9;
  first_token = some (codes "dddddddddddddd");
  second_token = none;
  writable = true;
  purged = true;
  sends = λ letter. true;
}

abbrev calls : List (Inputs × Call)
calls =
    (outside, open_call (join_house (some form) supplies))
    ∷ (
      outside,
      scoped_call (codes "Bearer aaaaaaaaaaaaaa")
          (on_profiles (record sent { method = codes "POST" })),
    )
    ∷ (outside, scoped_call (codes "Bearer aaaaaaaaaaaaaa") (drop_house (codes "bbbbbbbbbbbb")))
    ∷ (outside, open_call (ask_link (some (codes "a@b.test"))))
    ∷ []

run-Grown_example : Grown config (run settings server calls).control.config
unfolding texts_equal trim_prefix strip_prefix
run-Grown_example = run-Grown settings server calls (tt, (refl, (refl, (tt, tt))))
