-- ===== src/Admin/Server/Grown.antt =====
-- What an update without the operator may do to the configuration.
use teen_dns.Base.{
  ◌+◌, ◌≡◌, refl, ap, sym, ◌∙◌, subst, ℕ, Bool, true, if◌then◌else◌, inl, inr, List, [], ◌∷◌, ◌++◌,
  map, length, Option, none, some, Text, arith, Bool-cases, ok, Result-cases, ok_inj, Map, insert,
  text_eq, some_inj,
}
use teen_dns.Platform.{Platform, Instant}
use teen_dns.Policy.{Profile}
use teen_dns.Policy.Schedule.{zone_or_default}
use teen_dns.Config.{House, Invitation, Config, house_zones, apply_house_time_zones}
use teen_dns.Admin.{Control, update, settle_config}
use teen_dns.Admin.Update.{update-Done, Done}
use teen_dns.Admin.Houses.{is_unused, valid_invitation, use_invitation, prepend, joined}
use teen_dns.Admin.Houses.Removal.{owners, owners-settle_all, owners-zones}
use teen_dns.Admin.Houses.Invitations.{zones-invitations}
use teen_dns.Admin.Profiles.Isolation.{house_ids, Contained}

abbrev pub hashes : List Invitation → List Text
hashes is = map (λ (i : Invitation). i.code_hash) is

-- How many invitations are not used up, expired or not.
unfoldable pub unused : List Invitation → ℕ
unused [] = 0
unused (i ∷ is) = let rest = unused is in if is_unused i.used_at then rest + 1 else rest

-- Nothing is taken away, and each new house has used up an invitation that was there.
pub record Grown (cfg out : Config) : Type 0 where
  pub all_profiles : (new : List (Text × Text)) × (owners out.profiles ≡ owners cfg.profiles ++ new)
  pub all_houses : (new : List Text) × (house_ids out.houses ≡ house_ids cfg.houses ++ new)
  pub invitations : hashes out.invitations ≡ hashes cfg.invitations
  pub openings :
      length out.houses + unused out.invitations ≡ length cfg.houses + unused cfg.invitations

-- What stays exactly the same where nobody joins.
pub record Kept (cfg out : Config) : Type 0 where
  pub profiles : owners out.profiles ≡ owners cfg.profiles
  pub houses : house_ids out.houses ≡ house_ids cfg.houses
  pub invitations : out.invitations ≡ cfg.invitations

append_nil : {A : Type 0} (xs : List A) → xs ++ [] ≡ xs
append_nil [] = refl
append_nil (x ∷ xs) = ap (◌∷◌ x) (append_nil xs)

append_assoc : {A : Type 0} (xs ys zs : List A) → (xs ++ ys) ++ zs ≡ xs ++ (ys ++ zs)
append_assoc [] ys zs = refl
append_assoc (x ∷ xs) ys zs = ap (◌∷◌ x) (append_assoc xs ys zs)

map-append : {A B : Type 0} (f : A → B) (xs ys : List A) → map f (xs ++ ys) ≡ map f xs ++ map f ys
map-append f [] ys = refl
map-append f (x ∷ xs) ys = ap (◌∷◌ (f x)) (map-append f xs ys)

length-house_ids : (hs : List House) → length (house_ids hs) ≡ length hs
length-house_ids [] = refl
length-house_ids (h ∷ hs) = ground (arith, length-house_ids hs)

length_snoc : (hs : List House) (h : House) → length (hs ++ h ∷ []) ≡ length hs + 1
length_snoc [] h = refl
length_snoc (g ∷ hs) h = ground (arith, length_snoc hs h)

pub Kept-Grown : (cfg out : Config) → Kept cfg out → Grown cfg out
Kept-Grown cfg out k = record {
  all_profiles = ([], k.profiles ∙ sym (append_nil (owners cfg.profiles)));
  all_houses = ([], k.houses ∙ sym (append_nil (house_ids cfg.houses)));
  invitations = ap hashes k.invitations;
  openings =
      let same : length out.houses ≡ length cfg.houses =
        sym (length-house_ids out.houses) ∙ ap length k.houses ∙ length-house_ids cfg.houses in
      rw (same, k.invitations) refl;
}

pub Grown-refl : (cfg : Config) → Grown cfg cfg
Grown-refl cfg = Kept-Grown cfg cfg (record { profiles = refl; houses = refl; invitations = refl })

pub Grown-trans : (a b c : Config) → Grown a b → Grown b c → Grown a c
Grown-trans a b c f g = record {
  all_profiles = (
    f.all_profiles.0 ++ g.all_profiles.0,
    g.all_profiles.1
        ∙ ap (λ xs. xs ++ g.all_profiles.0) f.all_profiles.1
        ∙ append_assoc (owners a.profiles) f.all_profiles.0 g.all_profiles.0,
  );
  all_houses = (
    f.all_houses.0 ++ g.all_houses.0,
    g.all_houses.1
        ∙ ap (λ xs. xs ++ g.all_houses.0) f.all_houses.1
        ∙ append_assoc (house_ids a.houses) f.all_houses.0 g.all_houses.0,
  );
  invitations = g.invitations ∙ f.invitations;
  openings = g.openings ∙ f.openings;
}

house_zones-ids :
    (env : Platform) (hs : List House) (zones : Map Text Text) (out : List House × Map Text Text)
    → house_zones env hs zones ≡ ok out
    → house_ids out.0 ≡ house_ids hs
unfolding house_zones
house_zones-ids env [] zones out h =
    ap (λ (x : List House × Map Text Text). house_ids x.0) (sym (ok_inj _ _ h))
house_zones-ids env (x ∷ hs) zones out h =
    elim (Bool-cases (env.known_zone (zone_or_default x.time_zone))) [
      | inr unknown ↦ absurd (ground (arith, unknown, h))
      | inl known ↦
          elim (Result-cases
            (house_zones env hs (insert x.id (zone_or_default x.time_zone) zones))) [
              | inr (e, bad) ↦ absurd (ground (arith, known, bad, h))
              | inl (rest, good) ↦
                  ap (λ (y : List House × Map Text Text). house_ids y.0)
                    (sym (ok_inj _ _ (rw (known, good) at h)))
                  ∙ ap (◌∷◌ x.id) (house_zones-ids env hs _ rest good)
            ]
    ]

zones-Kept :
    (env : Platform) (cfg out : Config) → apply_house_time_zones env cfg ≡ ok out → Kept cfg out
unfolding apply_house_time_zones
zones-Kept env cfg out h = record {
  profiles = owners-zones env cfg out h;
  houses = elim (Result-cases (house_zones env cfg.houses [])) [
    | inr (e, bad) ↦ absurd (ground (arith, bad, h))
    | inl (z, good) ↦
        ap (λ (c : Config). house_ids c.houses) (sym (ok_inj _ _ (rw good at h)))
        ∙ house_zones-ids env cfg.houses [] z good
  ];
  invitations = zones-invitations env cfg out h;
}

settle-Kept : (env : Platform) (cfg : Config) → Kept cfg (settle_config env cfg)
settle-Kept env cfg = record {
  profiles = owners-settle_all env cfg.profiles;
  houses = refl;
  invitations = refl;
}

-- An update that is done keeps what the change keeps.
pub Done-Grown :
    (env : Platform) (s : Config) (out : Control) (next : Config)
    → Grown s next
    → Done env out (some next)
    → Grown s out.config
Done-Grown env s out next grown (asked, zoned, same, zones, written, kept, active) =
    let all : Grown s (settle_config env (settle_config env zoned)) =
      Grown-trans s asked _ (subst (Grown s) (sym (some_inj next asked same)) grown) (
        Grown-trans asked zoned _ (Kept-Grown asked zoned (zones-Kept env asked zoned zones)) (
          Grown-trans zoned (settle_config env zoned) _ (Kept-Grown zoned _ (settle-Kept env zoned))
            (Kept-Grown _ _ (settle-Kept env (settle_config env zoned))))) in
    subst (Grown s) (sym (kept ∙ ap (settle_config env) written)) all

pub update-Grown :
    (env : Platform) (s : Control) (changed : Option Config) (writable : Bool)
    → ((next : Config) → changed ≡ some next → Grown s.config next)
    → Grown s.config (update env s changed writable).0.config
update-Grown env s changed writable grown = elim (update-Done env s changed writable) [
  | inr (e, failed, (same, _, _)) ↦ subst (Grown s.config) (sym same) (Grown-refl s.config)
  | inl (fine, (next, zoned, asked, zones, written, kept, active)) ↦
      Done-Grown env s.config (update env s changed writable).0 next (grown next asked)
        (next, zoned, refl, zones, written, kept, active)
]

-- A change of one profile keeps everything that counts here.
pub Contained-Grown :
    (id : Text) (p : Profile) (cfg out : Config) → Contained id p cfg out → Grown cfg out
Contained-Grown id p cfg out c =
    Kept-Grown cfg out
      (record { profiles = c.all_owners; houses = c.all_houses; invitations = c.invitations })

pub profile-Grown :
    (cfg : Config) (p : Profile) → Grown cfg (record cfg { profiles = cfg.profiles ++ p ∷ [] })
profile-Grown cfg p = record {
  all_profiles = (owners (p ∷ []), map-append _ cfg.profiles (p ∷ []));
  all_houses = (Grown-refl cfg).all_houses;
  invitations = refl;
  openings = refl;
}

-- The invitation that a house joins with is used up.
Used : List Invitation → Option (List Invitation) → Type 0
Used is none = Unit
Used is (some js) = (hashes js ≡ hashes is) × (unused js + 1 ≡ unused is)

prepend-Used :
    (i : Invitation) (is : List Invitation) (o : Option (List Invitation))
    → Used is o
    → Used (i ∷ is) (prepend i o)
unfolding Used unused
prepend-Used i is none h = tt
prepend-Used i is (some js) h = (ap (◌∷◌ i.code_hash) h.0, ground (arith, h.1))

valid-unused :
    (wanted : Text) (now : Instant) (i : Invitation)
    → valid_invitation wanted now i ≡ true
    → is_unused i.used_at ≡ true
unfolding valid_invitation
valid-unused wanted now i h = ground (arith, h)

use_invitation-Used :
    (wanted : Text) (now used : Instant) (is : List Invitation)
    → Used is (use_invitation wanted now used is)
unfolding use_invitation Used unused
use_invitation-Used wanted now used [] = tt
use_invitation-Used wanted now used (i ∷ is) = elim (Bool-cases (valid_invitation wanted now i)) [
  | inl valid ↦ rw (valid, valid-unused wanted now i valid) (refl, refl)
  | inr passed ↦ rw passed (prepend-Used i is _ (use_invitation-Used wanted now used is))
]

joined_with-Grown :
    (cfg next : Config) (h : House) (p : Profile) (o : Option (List Invitation))
    → Used cfg.invitations o
    → joined cfg h p o ≡ some next
    → Grown cfg next
unfolding Used
joined_with-Grown cfg next h p none u e = absurd (ground arith)
joined_with-Grown cfg next h p (some js) u e = subst (Grown cfg) (sym (some_inj _ next e)) (record {
  all_profiles = (owners (p ∷ []), map-append _ cfg.profiles (p ∷ []));
  all_houses = (h.id ∷ [], map-append _ cfg.houses (h ∷ []));
  invitations = u.0;
  openings = omega (arith, length_snoc cfg.houses h, u.1);
})

pub joined-Grown :
    (wanted : Text) (now used : Instant) (cfg next : Config) (h : House) (p : Profile)
    → joined cfg h p (use_invitation wanted now used cfg.invitations) ≡ some next
    → Grown cfg next
joined-Grown wanted now used cfg next h p e =
    joined_with-Grown cfg next h p _ (use_invitation-Used wanted now used cfg.invitations) e
