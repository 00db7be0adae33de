-- ===== src/Classifier/Samples.antt =====
-- One catalogue and one page, and each theorem at them.
use teen_dns.Base.{
  ◌≡◌, ◌≤◌, ◌<◌, refl, true, any, [], ◌∷◌, length, All, Pairs, some, Text, Map, codes, texts_equal,
  is_empty, is_space, drop_space, trim_space, lookup, insert, has_key, byte_length, ok, List, ℕ,
}
use teen_dns.Platform.{Platform}
use teen_dns.Digest.Report.{text_less}
use teen_dns.Classifier.{PageProfile, Criterion, ClassifierInfo}
use teen_dns.Classifier.Catalog.{
  Axis, GuidanceGroup, Metadata, know_criteria, know_bands, know_axes, guided, rated_items,
  all_items, guide, place_criterion, sort_criteria, load_catalog,
}
use teen_dns.Classifier.Catalog.Loaded.{Before, Defined, load_catalog-Defined}
use teen_dns.Classifier.Rating.{
  classify, rating_text, decision_text, criteria_by_id, match_scores, match_criterion, rating_value,
  digits_value, sort_results, place_result, result_less, print_digits, itoa, reasons_for,
}
use teen_dns.Classifier.Rating.Orders.{swap, classify-Reordered}
use teen_dns.Classifier.Extract.{
  Node, node, other_node, element_node, text_node, siblings, no_nodes, Browser, extract_document,
}
use teen_dns.Classifier.Extract.Limits.{extract_document-bounded}

classifier_run : Unit {0}
unfolding any texts_equal is_empty is_space drop_space trim_space lookup insert has_key text_less
    know_criteria know_bands know_axes guided rated_items all_items guide place_criterion
    sort_criteria load_catalog rating_value digits_value match_criterion match_scores criteria_by_id
    sort_results place_result result_less print_digits itoa reasons_for rating_text decision_text
    classify
classifier_run = tt

abbrev taxonomy : List Axis
taxonomy =
    record {
      code = codes "V";
      bands =
          (codes "14", record { id = codes "V2"; label = codes "Blood" } ∷ [])
          ∷ (codes "16", record { id = codes "V1"; label = codes "Cruelty" } ∷ [])
          ∷ [];
    }
    ∷ []

abbrev guidance : List GuidanceGroup
guidance =
    record {
      rating = codes "14";
      criteria = record { id = codes "V2"; definition = codes "Blood is shown"; signals = [] } ∷ [];
    }
    ∷ record {
      rating = codes "16";
      criteria =
          record { id = codes "V1"; definition = codes "Cruelty is shown"; signals = [] } ∷ [];
    }
    ∷ []

abbrev blood : Criterion
blood = record {
  id = codes "V2";
  label = codes "Blood";
  axis = codes "V";
  rating = codes "14";
  definition = codes "Blood is shown";
  signals = [];
}

abbrev cruelty : Criterion
cruelty = record {
  id = codes "V1";
  label = codes "Cruelty";
  axis = codes "V";
  rating = codes "16";
  definition = codes "Cruelty is shown";
  signals = [];
}

load_catalog-Defined_example :
    (0 < 2)
    × Pairs Before (cruelty ∷ blood ∷ [])
    × ((known : Map Text Metadata) × (know_axes taxonomy [] ≡ ok known)
        × All (Defined known) (cruelty ∷ blood ∷ []))
unfolding classifier_run
load_catalog-Defined_example = load_catalog-Defined taxonomy guidance (cruelty ∷ blood ∷ []) refl

abbrev page : PageProfile
page = record {
  url = codes "http://a.test";
  final_url = codes "http://a.test/";
  domain = codes "a.test";
  title = [];
  description = [];
  text = [];
  links = [];
}

abbrev info : ClassifierInfo
info = record { name = codes "n"; version = codes "1" }

abbrev scores : Map Text ℕ
scores = (codes "V1", 80) ∷ (codes "V2", 90) ∷ []

abbrev swapped : Map Text ℕ
swapped = (codes "V2", 90) ∷ (codes "V1", 80) ∷ []

protected_page : (classify page (cruelty ∷ blood ∷ []) 75 scores 5 info).rating ≡ codes "16"
unfolding classifier_run
protected_page = refl

classify-Reordered_example :
    classify page (cruelty ∷ blood ∷ []) 75 scores 5 info
    ≡ classify page (cruelty ∷ blood ∷ []) 75 swapped 5 info
unfolding texts_equal
classify-Reordered_example =
    classify-Reordered page (cruelty ∷ blood ∷ []) 75 scores swapped 5 info (swap refl)

abbrev machine : Platform
machine = record {
  lower_rune = λ c. c;
  known_zone = λ zone. true;
  local_time = λ zone at. record { weekday = 0; hour = 0; minute = 0 };
}

abbrev browser : Browser
browser = record {
  env = machine;
  equal_fold = texts_equal;
  resolve_link = λ href. some (record { scheme = codes "http"; host = href });
}

abbrev document : Node
document = node other_node [] [] (
    siblings
      (node element_node (codes "title") []
        (siblings (node text_node (codes " A  page ") [] no_nodes) no_nodes))
      (siblings
        (node element_node (codes "a") (record { key = codes "href"; value = codes "b.test" } ∷ [])
          no_nodes)
        no_nodes))

extract_document-bounded_example :
    (byte_length (extract_document browser document 4).text ≤ 4)
    × (length (extract_document browser document 4).links ≤ 100)
extract_document-bounded_example = extract_document-bounded browser document 4
