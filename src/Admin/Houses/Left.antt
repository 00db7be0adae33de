-- ===== src/Admin/Houses/Left.antt =====
-- The house that deleteHouse takes out of the configuration.
use teen_dns.Base.{
  ◌≡◌, ◌≢◌, refl, ap, sym, ◌∙◌, inl, inr, false, List, [], ◌∷◌, ◌++◌, All, map, some, some_inj,
  Text, texts_equal, texts_equal_iff, arith, Bool-cases, Option-cases, ok, Result-cases, ok_inj,
  Map, insert, subst, text_eq,
}
use teen_dns.Platform.{Platform}
use teen_dns.Policy.Schedule.{zone_or_default}
use teen_dns.Config.{House, Config, house_zones, apply_house_time_zones}
use teen_dns.Admin.Houses.{remove_house, without_house}

abbrev pub house_ids : List House → List Text
house_ids hs = map (λ (h : House). h.id) hs

-- The first house with the id, and the houses around it.
pub record TakenOut (id : Text) (hs rest : List House) : Type 0 where
  pub before : List House
  pub after : List House
  pub house : House
  pub split : hs ≡ before ++ house ∷ after
  pub own : house.id ≡ id
  pub earlier : All (λ (h : House). h.id ≢ id) before
  pub left : rest ≡ before ++ after

pub remove_house-TakenOut :
    (id : Text) (hs rest : List House) → remove_house id hs ≡ some rest → TakenOut id hs rest
unfolding remove_house
remove_house-TakenOut id [] rest h = cc
remove_house-TakenOut id (x ∷ hs) rest h = elim (Bool-cases (texts_equal x.id id)) [
  | inl same ↦ record {
    before = [];
    after = hs;
    house = x;
    split = refl;
    own = (texts_equal_iff x.id id).0 same;
    earlier = tt;
    left = some_inj hs rest (rw same at h);
  }
  | inr other ↦ elim (Option-cases (remove_house id hs)) [
    | inl gone ↦ absurd (ground (arith, other, gone, h))
    | inr (tail, found) ↦
        let t = remove_house-TakenOut id hs tail found in
        record {
          before = x ∷ t.before;
          after = t.after;
          house = t.house;
          split = ap (◌∷◌ x) t.split;
          own = t.own;
          earlier = ((λ e. differs e other), t.earlier);
          left = some_inj (x ∷ tail) rest (rw (other, found) at h) ∙ ap (◌∷◌ x) t.left;
        }
  ]
]
  where
    differs : x.id ≡ id → texts_equal x.id id ≡ false → ⊥
    differs e other = cc ((texts_equal_iff x.id id).1 e)

house_ids-house_zones :
    (env : Platform) (hs : List House) (zones : Map Text Text) (out : List House × Map Text Text)
    → house_zones env hs zones ≡ ok out
    → house_ids out.0 ≡ house_ids hs
unfolding house_zones
house_ids-house_zones env [] zones out h =
    ap (λ (o : List House × Map Text Text). house_ids o.0) (sym (ok_inj _ _ h))
house_ids-house_zones env (x ∷ hs) zones out h =
    elim (Bool-cases (env.known_zone (zone_or_default x.time_zone))) [
      | inr unknown ↦ absurd (ground (arith, unknown, h))
      | inl known ↦
          elim (Result-cases
            (house_zones env hs (insert x.id (zone_or_default x.time_zone) zones))) [
              | inr (e, bad) ↦ absurd (ground (arith, known, bad, h))
              | inl (rest, good) ↦
                  ap (λ (o : List House × Map Text Text). house_ids o.0)
                    (sym (ok_inj _ _ (rw (known, good) at h)))
                  ∙ ap (◌∷◌ x.id) (
                      house_ids-house_zones env hs (insert x.id (zone_or_default x.time_zone) zones)
                        rest good)
            ]
    ]

pub house_ids-zones :
    (env : Platform) (cfg out : Config)
    → apply_house_time_zones env cfg ≡ ok out
    → house_ids out.houses ≡ house_ids cfg.houses
unfolding apply_house_time_zones
house_ids-zones env cfg out h = elim (Result-cases (house_zones env cfg.houses [])) [
  | inr (e, bad) ↦ absurd (ground (arith, bad, h))
  | inl (z, good) ↦
      ap (λ (c : Config). house_ids c.houses) (sym (ok_inj _ _ (rw good at h)))
      ∙ house_ids-house_zones env cfg.houses [] z good
]

-- What is asked of the update is the removal of that house.
pub without_house-TakenOut :
    (cfg next : Config) (id : Text)
    → without_house cfg id (remove_house id cfg.houses) ≡ some next
    → TakenOut id cfg.houses next.houses
without_house-TakenOut cfg next id h = elim (Option-cases (remove_house id cfg.houses)) [
  | inl unknown ↦ absurd (ground (arith, unknown, h))
  | inr (hs, found) ↦
      subst (λ (c : Config). TakenOut id cfg.houses c.houses)
        (some_inj next _ (sym (rw found at h))) (remove_house-TakenOut id cfg.houses hs found)
]
