-- ===== src/Setup/Apple.antt =====
-- AppleMobileConfig and ResolverIP. SHA-256 in hexadecimal, the text payloadTop and the resolver are
-- arguments; the map of values has the order of the list.
use teen_dns.Base.{
  ℕ, zero, suc, Bool, false, not, ◌||◌, if◌then◌else◌, List, [], ◌∷◌, ◌++◌, Option, none, some,
  Text, codes, is_empty, trim_space, trim_suffix, has_prefix, Result, ok, ◌>>=◌, ◌>>◌, require,
}
use teen_dns.Platform.{Platform, to_lower}
use teen_dns.Setup.{Params, SetupError, not_rendered, normalized, replace_texts, validate_port}

unfoldable pub escape_xml : Text → Text
escape_xml value =
    replace_texts
      ((codes "&", codes "&amp;") ∷ (codes "<", codes "&lt;") ∷ (codes ">", codes "&gt;") ∷ [])
      value

-- digest[from:to] as the part of that length behind the first `from` letters
unfoldable pub part : ℕ → ℕ → Text → Text
part zero zero s = []
part from size [] = []
part zero (suc size) (c ∷ s) = c ∷ part zero size s
part (suc from) size (c ∷ s) = part from size s

-- The first six bytes of the hash.
unfoldable pub short_identifier : (Text → Text) → Text → Text
unfolding part
short_identifier sha256 hostname = part 0 12 (sha256 hostname)

unfoldable pub uuid_from_seed : (Text → Text) → Text → ℕ → Text
unfolding part
uuid_from_seed sha256 seed variant =
    let digest = sha256 (seed ++ variant ∷ []) in
    part 0 8 digest
    ++ codes "-"
    ++ part 8 4 digest
    ++ codes "-"
    ++ part 12 4 digest
    ++ codes "-"
    ++ part 16 4 digest
    ++ codes "-"
    ++ part 20 12 digest

abbrev pub server_addresses : Text → Text
server_addresses ip =
    codes "        <key>ServerAddresses</key>\n        <array>\n          <string>"
    ++ escape_xml ip
    ++ codes "</string>\n        </array>\n"

abbrev pub address_values : Text → List (Text × Text)
address_values ip = if is_empty ip then [] else (codes "ServerAddresses", server_addresses ip) ∷ []

unfoldable pub apple_values : (Text → Text) → Params → List (Text × Text)
unfolding short_identifier uuid_from_seed
apple_values sha256 p =
    let identifier = short_identifier sha256 p.hostname in
    (codes "Hostname", p.hostname) ∷ address_values p.ip
    ++ (codes "Identifier", identifier)
      ∷ (codes "DNSUUID", uuid_from_seed sha256 identifier 1)
      ∷ (codes "ProfileUUID", uuid_from_seed sha256 identifier 2)
      ∷ []

-- strings.ReplaceAll for one value after the other
unfoldable pub fill : List (Text × Text) → Text → Text
fill [] content = content
fill ((placeholder, value) ∷ values) content =
    fill values (replace_texts ((codes "{{." ++ placeholder ++ codes "}}", value) ∷ []) content)

-- strings.Contains
unfoldable pub holds_mark : Text → Bool
holds_mark [] = false
holds_mark (c ∷ s) = let rest = holds_mark s in has_prefix (c ∷ s) (codes "{{.") || rest

-- The last replacement, of what the loop has left.
abbrev pub fill_addresses : Text → Text → Text
fill_addresses ip content =
    replace_texts
      ((codes "{{.ServerAddresses}}", if is_empty ip then [] else server_addresses ip) ∷ []) content

-- AppleMobileConfig
unfoldable pub apple_mobile_config :
    Platform → (Text → Text) → Text → Params → Result SetupError Text
unfolding apple_values fill holds_mark
apple_mobile_config env sha256 template p = do
  q ← normalized env p
  _ ← validate_port q.port
  let content = fill_addresses q.ip (fill (apple_values sha256 q) template)
  require (not (holds_mark content)) not_rendered
  ok content

-- The first address of the list that is an IPv4 one, as it prints.
unfoldable pub first_ipv4 : {Ip : Type 0} → (Ip → Option Text) → List Ip → Text
first_ipv4 print [] = []
first_ipv4 print (ip ∷ ips) =
    let rest = first_ipv4 print ips in elim (print ip) [ none ↦ rest | some text ↦ text ]

abbrev pub looked_up : {Ip : Type 0} → (Ip → Option Text) → Option (List Ip) → Text
looked_up print none = []
looked_up print (some ips) = first_ipv4 print ips

-- ResolverIP; `look_up` is net.LookupIP, `none` for an error
unfoldable pub resolver_ip :
    {Ip : Type 0} → Platform → (Ip → Option Text) → (Text → Option (List Ip)) → Text → Text
unfolding first_ipv4
resolver_ip env print look_up suffix =
    let name = to_lower env (trim_suffix (trim_space suffix) (codes ".")) in
    if is_empty name then [] else looked_up print (look_up name)
