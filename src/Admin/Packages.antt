-- ===== src/Admin/Packages.antt =====
-- The catalogue of packages: catalogPackages, presetGroups and availablePackageGroups. The files of
-- the catalogue are arguments, as what they decode to; `none` is a file that cannot be read.
use teen_dns.Base.{
  ℕ, false, if◌then◌else◌, List, [], ◌∷◌, ◌++◌, length, Option, none, some, Text, codes,
  texts_equal, is_empty, trim_prefix, Map, lookup, text_eq, Result, ok, err, ◌>>=◌,
}
use teen_dns.Platform.{Platform}
use teen_dns.Policy.{Action, block, observe, RuleGroup, valid_action}
use teen_dns.Config.{load_domains}
use teen_dns.Digest.Report.{text_less}

pub record PresetDefinition : Type 0 where
  pub id : Text
  pub themes : Map Text Action
  pub service_overrides : Map Text Action

pub record ServiceDefinition : Type 0 where
  pub label : Text
  pub theme : Text
  pub domain_source : Text

pub record CatalogPackage : Type 0 where
  pub id : Text
  pub name : Text
  pub category : Text
  pub reason : Text
  pub domain_count : ℕ
  pub suggested_action : Action

-- filepath.Join, the lines of a text file, and the two JSON documents.
pub record CatalogFiles : Type 0 where
  pub join : Text → Text → Text
  pub lines : Text → Option (List Text)
  pub presets : Text → Option (List PresetDefinition)
  pub services : Text → Option (Map Text ServiceDefinition)

pub data PackageError : Type 0 where
  unknown_preset : PackageError
  not_read : Text → PackageError
  bad_theme : Text → PackageError

abbrev pub read_or : {A : Type 0} → Text → Option A → Result PackageError A
read_or path none = err (not_read path)
read_or path (some a) = ok a

-- serviceReason
unfoldable pub service_reason : Text → Text
service_reason theme =
    if texts_equal theme (codes "messaging_and_communities")
    then codes
        "Comunidades e mensagens também são espaços de amizade; o combinado deve preservar contato e segurança"
    else if texts_equal theme (codes "games_and_social_play")
    then codes "Jogos online misturam brincadeira, criação, compras e contato com outras pessoas"
    else if texts_equal theme (codes "social_video")
    then codes "Vídeo social mistura criação, aprendizado, publicidade e disputa por atenção"
    else codes
        "Redes sociais misturam convivência, entretenimento, publicidade e pressão por atenção"

pub record GroupSeed : Type 0 where
  pub id : Text
  pub name : Text
  pub category : Text
  pub reason : Text
  pub file : Text
  pub action : Action

abbrev pub seeds : List GroupSeed
seeds =
    record {
      id = codes "gambling-br";
      name = codes "Apostas";
      category = codes "gambling";
      reason = codes "Apostas usam dinheiro real e podem criar hábitos difíceis de controlar";
      file = codes "gambling-br-authorized.txt";
      action = block;
    }
    ∷ record {
      id = codes "adult";
      name = codes "Conteúdo adulto";
      category = codes "adult_content";
      reason =
          codes
            "Conteúdo sexual explícito pede contexto, conversa e um acordo adequado para esta fase";
      file = codes "adult-content-regulators.txt";
      action = block;
    }
    ∷ []

-- The group of a seed whose file has the domains.
abbrev pub seeded : GroupSeed → Text → List Text → RuleGroup
seeded seed path domains = record {
  id = seed.id;
  name = seed.name;
  action = seed.action;
  category = seed.category;
  reason = seed.reason;
  domains = domains;
  default_domains = domains;
  domain_source = path;
  customized = false;
  schedules = [];
}

unfoldable pub seed_groups :
    Platform → CatalogFiles → Text → List GroupSeed → Result PackageError (List RuleGroup)
seed_groups env files dir [] = ok []
seed_groups env files dir (seed ∷ rest) = do
  let path = files.join dir seed.file
  lines ← read_or path (files.lines path)
  groups ← seed_groups env files dir rest
  ok (seeded seed path (load_domains env lines) ∷ groups)

-- sort.Strings over the keys of the services
unfoldable pub place_id : Text → List Text → List Text
place_id id [] = id ∷ []
place_id id (next ∷ ids) =
    let rest = place_id id ids in if text_less id next then id ∷ next ∷ ids else next ∷ rest

unfoldable pub sorted_ids : Map Text ServiceDefinition → List Text
unfolding place_id
sorted_ids [] = []
sorted_ids ((id, service) ∷ services) = place_id id (sorted_ids services)

abbrev pub no_service : ServiceDefinition
no_service = record { label = []; theme = []; domain_source = [] }

abbrev pub service_or_none : Option ServiceDefinition → ServiceDefinition
service_or_none none = no_service
service_or_none (some service) = service

unfoldable pub service_groups :
    Platform
    → CatalogFiles
    → Text
    → Map Text ServiceDefinition
    → List Text
    → Result PackageError (List RuleGroup)
unfolding service_reason
service_groups env files dir services [] = ok []
service_groups env files dir services (id ∷ ids) = do
  let service = service_or_none (lookup id services)
  let path = files.join dir service.domain_source
  lines ← read_or path (files.lines path)
  groups ← service_groups env files dir services ids
  let seed : GroupSeed = record {
    id = codes "service-" ++ id;
    name = service.label;
    category = service.theme;
    reason = service_reason service.theme;
    file = service.domain_source;
    action = observe;
  }
  ok (seeded seed path (load_domains env lines) ∷ groups)

-- availablePackageGroups
unfoldable pub available_package_groups :
    Platform → CatalogFiles → Text → Result PackageError (List RuleGroup)
unfolding seed_groups service_groups sorted_ids
available_package_groups env files dir = do
  first ← seed_groups env files dir seeds
  let path = files.join dir (codes "service-pools.json")
  services ← read_or path (files.services path)
  groups ← service_groups env files dir services (sorted_ids services)
  ok (first ++ groups)

abbrev pub known_action : Text → Action → Result PackageError Action
known_action theme action = if valid_action action then ok action else err (bad_theme theme)

abbrev pub theme_action : Text → Option Action → Result PackageError Action
theme_action theme none = err (bad_theme theme)
theme_action theme (some action) = known_action theme action

-- presetAction
unfoldable pub preset_action : Map Text Action → Text → Result PackageError Action
preset_action themes theme = theme_action theme (lookup theme themes)

abbrev pub action_for : PresetDefinition → RuleGroup → Option Action → Result PackageError Action
action_for preset g none = preset_action preset.themes g.category
action_for preset g (some action) = ok action

unfoldable pub chosen_action : PresetDefinition → RuleGroup → Result PackageError Action
unfolding preset_action
chosen_action preset g =
    action_for preset g (lookup (trim_prefix g.id (codes "service-")) preset.service_overrides)

unfoldable pub choose_actions :
    PresetDefinition → List RuleGroup → Result PackageError (List RuleGroup)
choose_actions preset [] = ok []
choose_actions preset (g ∷ gs) = do
  action ← chosen_action preset g
  rest ← choose_actions preset gs
  ok (record g { action = action } ∷ rest)

unfoldable pub find_preset : Text → List PresetDefinition → Option PresetDefinition
find_preset id [] = none
find_preset id (preset ∷ presets) =
    let rest = find_preset id presets in if texts_equal preset.id id then some preset else rest

abbrev pub preset_or_unknown : Option PresetDefinition → Result PackageError PresetDefinition
preset_or_unknown none = err unknown_preset
preset_or_unknown (some preset) = ok preset

abbrev pub preset_id : Text → Text
preset_id id = if is_empty id then codes "explorando" else id

-- presetGroups
unfoldable pub preset_groups :
    Platform → CatalogFiles → Text → Text → Result PackageError (List RuleGroup)
unfolding find_preset choose_actions available_package_groups
preset_groups env files dir id = do
  let path = files.join dir (codes "presets.json")
  presets ← read_or path (files.presets path)
  preset ← preset_or_unknown (find_preset (preset_id id) presets)
  groups ← available_package_groups env files dir
  choose_actions preset groups

unfoldable pub packages_of : List RuleGroup → List CatalogPackage
packages_of [] = []
packages_of (g ∷ gs) =
    record {
      id = g.id;
      name = g.name;
      category = g.category;
      reason = g.reason;
      domain_count = length g.domains;
      suggested_action = g.action;
    }
    ∷ packages_of gs

-- catalogPackages
unfoldable pub catalog_packages : Platform → CatalogFiles → Text → Result ℕ (List CatalogPackage)
unfolding packages_of
catalog_packages env files dir = elim (available_package_groups env files dir) [
  | err e ↦ err 500
  | ok groups ↦ ok (packages_of groups)
]
