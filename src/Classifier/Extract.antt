-- ===== src/Classifier/Extract.antt =====
-- extract.go: what is kept of a page. The document is what html.Parse makes of the body: a node with its
-- attributes and children. Resolving a link against the page's address is an argument.
pub mod Limits
use teen_dns.Base.{
  ℕ, zero, suc, ◌+◌, ◌-◌, Bool, true, false, not, ◌&&◌, ◌||◌, ltb, leb, eqb, if◌then◌else◌, any,
  List, [], ◌∷◌, ◌++◌, length, Option, none, some, Text, codes, texts_equal, is_empty, is_space,
  byte_length, rune_bytes, contains,
}
use teen_dns.Platform.{Platform, to_lower}
use teen_dns.Digest.Report.{text_less}

pub record Attribute : Type 0 where
  pub key : Text
  pub value : Text

pub data NodeType : Type 0 where
  text_node element_node other_node : NodeType

mutual
  pub data Node : Type 0 where
    node : NodeType → Text → List Attribute → Nodes → Node

  pub data Nodes : Type 0 where
    no_nodes : Nodes
    siblings : Node → Nodes → Nodes

-- A resolved link: its scheme and its host name.
pub record Target : Type 0 where
  pub scheme : Text
  pub host : Text

-- `equal_fold` is strings.EqualFold, `resolve_link` base.Parse, `none` where it fails.
pub record Browser : Type 0 where
  pub env : Platform
  pub equal_fold : Text → Text → Bool
  pub resolve_link : Text → Option Target

-- What walk writes; the links are the keys of the map, without repetition.
pub record Page : Type 0 where
  pub title : Text
  pub description : Text
  pub text : Text
  pub links : List Text

abbrev pub default_max_text : ℕ
default_max_text = 12_000

-- cleanText: the runs of what is not space, joined by one space. `word` is the part of a run before.
abbrev pub joined_word : Text → Text → Text
joined_word [] rest = rest
joined_word (c ∷ word) [] = c ∷ word
joined_word (c ∷ word) (d ∷ rest) = c ∷ word ++ 32 ∷ d ∷ rest

unfoldable pub clean_words : Text → Text → Text
clean_words word [] = word
clean_words word (c ∷ s) =
    let next = clean_words [] s in
    let longer = clean_words (word ++ c ∷ []) s in
    if is_space c then joined_word word next else longer

unfoldable pub clean_text : Text → Text
unfolding clean_words
clean_text value = clean_words [] value

-- The first characters that fit into the bytes that are left.
unfoldable pub fitting : ℕ → Text → Text
fitting left [] = []
fitting left (c ∷ s) =
    let rest = fitting (left - rune_bytes c) s in if ltb left (rune_bytes c) then [] else c ∷ rest

-- writeLimited
unfoldable pub write_limited : Text → Text → ℕ → Text
unfolding fitting
write_limited output value left =
    if eqb left 0
    then output
    else if leb (byte_length value) left
    then output ++ value
    else output ++ fitting left value

unfoldable pub attribute : Browser → List Attribute → Text → Text
attribute b [] key = []
attribute b (a ∷ attrs) key =
    let rest = attribute b attrs key in if b.equal_fold a.key key then a.value else rest

abbrev pub is_hidden : Text → Bool
is_hidden tag =
    texts_equal tag (codes "script")
    || texts_equal tag (codes "style")
    || texts_equal tag (codes "noscript")
    || texts_equal tag (codes "svg")
    || texts_equal tag (codes "template")

unfoldable pub read_meta : Browser → List Attribute → Page → Page
unfolding clean_text attribute
read_meta b attrs page =
    if is_empty page.description
      && (b.equal_fold (attribute b attrs (codes "name")) (codes "description")
          || b.equal_fold (attribute b attrs (codes "property")) (codes "og:description"))
    then record page { description = clean_text (attribute b attrs (codes "content")) }
    else page

abbrev pub note_link : Text → Page → Page
note_link host page =
    if is_empty host || any (texts_equal host) page.links
    then page
    else record page { links = host ∷ page.links }

abbrev pub follow : Browser → Page → Option Target → Page
follow b page none = page
follow b page (some target) =
    if texts_equal target.scheme (codes "http") || texts_equal target.scheme (codes "https")
    then note_link (to_lower b.env target.host) page
    else page

unfoldable pub read_element : Browser → Text → List Attribute → Page → Page
unfolding read_meta attribute
read_element b tag attrs page =
    if texts_equal tag (codes "meta")
    then read_meta b attrs page
    else if texts_equal tag (codes "a")
    then follow b page (b.resolve_link (attribute b attrs (codes "href")))
    else page

-- A text node below an element with the tag `parent`, `none` where there is none.
abbrev pub is_title : Browser → Option Text → Bool
is_title b none = false
is_title b (some tag) = b.equal_fold tag (codes "title")

abbrev pub spaced : Text → Text
spaced text = if is_empty text then text else text ++ 32 ∷ []

unfoldable pub add_text : ℕ → Text → Page → Page
unfolding write_limited
add_text max_text value page =
    if ltb (byte_length page.text) max_text
    then record page {
      text = write_limited (spaced page.text) value (max_text - byte_length (spaced page.text));
    }
    else page

unfoldable pub read_text : Browser → ℕ → Option Text → Text → Page → Page
unfolding clean_text add_text
read_text b max_text parent raw page =
    let value = clean_text raw in
    if is_empty value
    then page
    else add_text max_text value
        (if is_title b parent && is_empty page.title then record page { title = value } else page)

abbrev pub is_text : NodeType → Bool
is_text text_node = true
is_text _ = false

abbrev pub is_element : NodeType → Bool
is_element element_node = true
is_element _ = false

-- What walk does at a node, before its children.
unfoldable pub visit :
    Browser → ℕ → Option Text → Bool → NodeType → Text → List Attribute → Page → Page
unfolding read_element read_text
visit b max_text parent hidden kind data_of attrs page =
    if is_element kind
    then read_element b (to_lower b.env data_of) attrs page
    else if is_text kind && not hidden
    then read_text b max_text parent data_of page
    else page

abbrev pub hides : Browser → NodeType → Text → Bool → Bool
hides b kind data_of hidden = hidden || (is_element kind && is_hidden (to_lower b.env data_of))

abbrev pub parent_tag : NodeType → Text → Option Text
parent_tag element_node tag = some tag
parent_tag _ tag = none

-- walk
unfoldable mutual
  unfolding visit

  pub walk : Browser → ℕ → Option Text → Bool → Node → Page → Page
  walk b max_text parent hidden (node kind data_of attrs children) page =
      walk_all b max_text (parent_tag kind data_of) (hides b kind data_of hidden) children
        (visit b max_text parent hidden kind data_of attrs page)

  pub walk_all : Browser → ℕ → Option Text → Bool → Nodes → Page → Page
  walk_all b max_text parent hidden no_nodes page = page
  walk_all b max_text parent hidden (siblings first rest) page =
      walk_all b max_text parent hidden rest (walk b max_text parent hidden first page)

unfoldable pub place_link : Text → List Text → List Text
place_link link [] = link ∷ []
place_link link (next ∷ links) =
    let rest = place_link link links in
    if text_less next link then next ∷ rest else link ∷ next ∷ links

-- sort.Strings
unfoldable pub sort_links : List Text → List Text
unfolding place_link
sort_links [] = []
sort_links (link ∷ links) = place_link link (sort_links links)

-- linkList[:100]
unfoldable pub first_links : ℕ → List Text → List Text
first_links zero links = []
first_links (suc n) [] = []
first_links (suc n) (link ∷ links) = link ∷ first_links n links

abbrev pub empty_page : Page
empty_page = record { title = []; description = []; text = []; links = [] }

-- extractDocument; a limit of 0 stands for one that is not positive
unfoldable pub extract_document : Browser → Node → ℕ → Page
unfolding walk sort_links first_links
extract_document b document max_text =
    let limit = if eqb max_text 0 then default_max_text else max_text in
    let page = walk b limit none false document empty_page in
    record page { links = first_links 100 (sort_links page.links) }
