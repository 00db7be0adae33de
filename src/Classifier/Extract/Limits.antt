-- ===== src/Classifier/Extract/Limits.antt =====
-- The bounds of what is extracted.
use teen_dns.Base.{
  ℕ, zero, suc, ◌+◌, ◌-◌, ◌≤◌, ◌<◌, ◌≡◌, refl, sym, subst, inl, inr, Bool, false, not, ◌&&◌, ◌||◌,
  ltb, eqb, if◌then◌else◌, any, List, [], ◌∷◌, ◌++◌, length, Option, none, some, Text, codes,
  texts_equal, is_empty, byte_length, rune_bytes, arith, Bool-cases, branch, ltb→lt,
}
use teen_dns.Platform.{to_lower}
use teen_dns.Classifier.Extract.{
  Attribute, NodeType, Node, Nodes, node, no_nodes, siblings, Target, Browser, Page,
  default_max_text, clean_text, fitting, write_limited, read_meta, follow, read_element, is_title,
  spaced, add_text, read_text, visit, walk, walk_all, first_links, empty_page, extract_document,
  attribute, is_element, is_text,
}

byte_length-append : (s t : Text) → byte_length (s ++ t) ≡ byte_length s + byte_length t
unfolding byte_length
byte_length-append [] t = omega arith
byte_length-append (c ∷ s) t = ground (arith, byte_length-append s t)

fitting-le : (left : ℕ) (s : Text) → byte_length (fitting left s) ≤ left
unfolding fitting byte_length
fitting-le left [] = omega arith
fitting-le left (c ∷ s) = ground (arith, fitting-le (left - rune_bytes c) s)

write_limited-le :
    (output value : Text) (left : ℕ)
    → byte_length (write_limited output value left) ≤ byte_length output + left
unfolding write_limited
write_limited-le output value left = ground (
  arith,
  byte_length-append output value,
  byte_length-append output (fitting left value),
  fitting-le left value,
)

spaced-le : (text : Text) → byte_length (spaced text) ≤ byte_length text + 1
unfolding is_empty byte_length rune_bytes
spaced-le [] = omega arith
spaced-le (c ∷ text) =
    let space : byte_length (32 ∷ []) ≡ 1 = refl in
    omega (arith, byte_length-append (c ∷ text) (32 ∷ []), space)

-- The text that is kept fits.
unfoldable Fits : ℕ → Page → Type 0
Fits limit page = byte_length page.text ≤ limit

-- Only the text counts.
same-Fits : (limit : ℕ) (page out : Page) → out.text ≡ page.text → Fits limit page → Fits limit out
unfolding Fits
same-Fits limit page out e h = subst (λ text. byte_length text ≤ limit) (sym e) h

add_text-Fits :
    (limit : ℕ) (value : Text) (page : Page)
    → Fits limit page
    → Fits limit (add_text limit value page)
unfolding add_text Fits
add_text-Fits limit value page h = elim (Bool-cases (ltb (byte_length page.text) limit)) [
  | inr full ↦ rw (full, add_text) h
  | inl room ↦
      let less : byte_length page.text < limit = ltb→lt (byte_length page.text) limit room in
      rw (room, add_text)
        (omega (
          arith,
          less,
          spaced-le page.text,
          write_limited-le (spaced page.text) value (limit - byte_length (spaced page.text)),
        ))
]

read_text-Fits :
    (b : Browser) (limit : ℕ) (parent : Option Text) (raw : Text) (page : Page)
    → Fits limit page
    → Fits limit (read_text b limit parent raw page)
unfolding read_text
read_text-Fits b limit parent raw page h = branch (Fits limit) (is_empty (clean_text raw)) h (
    add_text-Fits limit (clean_text raw) _ (
      branch (Fits limit) (is_title b parent && is_empty page.title) (same-Fits limit page _ refl h)
        h))

follow-Fits :
    (b : Browser) (limit : ℕ) (page : Page) (target : Option Target)
    → Fits limit page
    → Fits limit (follow b page target)
follow-Fits b limit page none h = h
follow-Fits b limit page (some target) h =
    let host = to_lower b.env target.host in
    branch (Fits limit)
      (texts_equal target.scheme (codes "http") || texts_equal target.scheme (codes "https"))
      (branch (Fits limit) (is_empty host || any (texts_equal host) page.links) h
        (same-Fits limit page _ refl h))
      h

read_meta-Fits :
    (b : Browser) (limit : ℕ) (attrs : List Attribute) (page : Page)
    → Fits limit page
    → Fits limit (read_meta b attrs page)
unfolding read_meta Fits
read_meta-Fits b limit attrs page h =
    elim (Bool-cases (
      is_empty page.description
      && (b.equal_fold (attribute b attrs (codes "name")) (codes "description")
          || b.equal_fold (attribute b attrs (codes "property")) (codes "og:description")))) [
            | inl described ↦ rw (described, read_meta) h
            | inr other ↦ rw (other, read_meta) h
          ]

read_element-Fits :
    (b : Browser) (limit : ℕ) (tag : Text) (attrs : List Attribute) (page : Page)
    → Fits limit page
    → Fits limit (read_element b tag attrs page)
unfolding read_element
read_element-Fits b limit tag attrs page h =
    branch (Fits limit) (texts_equal tag (codes "meta")) (read_meta-Fits b limit attrs page h) (
      branch (Fits limit) (texts_equal tag (codes "a"))
        (follow-Fits b limit page (b.resolve_link (attribute b attrs (codes "href"))) h) h)

visit-Fits :
    (b : Browser) (limit : ℕ) (parent : Option Text) (hidden : Bool) (kind : NodeType)
    (data_of : Text) (attrs : List Attribute) (page : Page)
    → Fits limit page
    → Fits limit (visit b limit parent hidden kind data_of attrs page)
unfolding visit
visit-Fits b limit parent hidden kind data_of attrs page h =
    branch (Fits limit) (is_element kind)
      (read_element-Fits b limit (to_lower b.env data_of) attrs page h)
      (branch (Fits limit) (is_text kind && not hidden)
        (read_text-Fits b limit parent data_of page h) h)

mutual
  unfolding walk

  walk-Fits :
      (b : Browser) (limit : ℕ) (parent : Option Text) (hidden : Bool) (n : Node) (page : Page)
      → Fits limit page
      → Fits limit (walk b limit parent hidden n page)
  walk-Fits b limit parent hidden (node kind data_of attrs children) page h =
      walk_all-Fits b limit _ _ children _
        (visit-Fits b limit parent hidden kind data_of attrs page h)

  walk_all-Fits :
      (b : Browser) (limit : ℕ) (parent : Option Text) (hidden : Bool) (ns : Nodes) (page : Page)
      → Fits limit page
      → Fits limit (walk_all b limit parent hidden ns page)
  walk_all-Fits b limit parent hidden no_nodes page h = h
  walk_all-Fits b limit parent hidden (siblings first rest) page h =
      walk_all-Fits b limit parent hidden rest _ (walk-Fits b limit parent hidden first page h)

first_links-le : (n : ℕ) (links : List Text) → length (first_links n links) ≤ n
unfolding first_links
first_links-le zero links = omega arith
first_links-le (suc n) [] = omega arith
first_links-le (suc n) (link ∷ links) = omega (arith, first_links-le n links)

-- However large the page is and whatever its structure, the text that is kept of it has at most
-- `max_text` bytes, or 12,000 where no limit is given, and there are at most 100 link domains.
pub extract_document-bounded :
    (b : Browser) (document : Node) (max_text : ℕ)
    → (byte_length (extract_document b document max_text).text
        ≤ (if eqb max_text 0 then default_max_text else max_text))
      × (length (extract_document b document max_text).links ≤ 100)
unfolding extract_document Fits byte_length
extract_document-bounded b document max_text = (
  walk-Fits b (if eqb max_text 0 then default_max_text else max_text) none false document empty_page
      (ground arith),
  first_links-le 100 _,
)
