-- ===== src/Setup/Samples.antt =====
-- One device, and the theorem at it.
use teen_dns.Base.{
  ◌≡◌, refl, true, [], ◌∷◌, ◌++◌, Text, codes, ok, is_empty, is_space, drop_space, trim_space, any,
  contains, contains_any, has_prefix, byte_length,
}
use teen_dns.Platform.{Platform, to_lower}
use teen_dns.Setup.{
  Params, normalized, fitting_pair, replace_from, replace_texts, render, windows_line_endings,
  validate_port, windows_install_bat, windows_remove_bat,
}
use teen_dns.Setup.Lines.{feeds, windows_bat-feeds}

abbrev machine : Platform
machine = record {
  lower_rune = λ c. c;
  known_zone = λ zone. true;
  local_time = λ zone at. record { weekday = 0; hour = 0; minute = 0 };
}

abbrev device : Params
device = record { hostname = codes "P-1.test"; ip = codes "10.0.0.1"; port = []; test_domain = [] }

abbrev template : Text
template = codes "set {{.IP}}" ++ 10 ∷ codes "host {{.Hostname}}:{{.Port}}"

abbrev script : Text
script = codes "set 10.0.0.1" ++ 13 ∷ 10 ∷ codes "host p-1.test:853"

installed : windows_install_bat machine template device ≡ ok script
unfolding is_empty is_space drop_space trim_space any contains contains_any has_prefix byte_length
    to_lower normalized fitting_pair replace_from replace_texts render windows_line_endings
    validate_port windows_install_bat
installed = refl

windows_bat-feeds_example :
    ((out : Text)
      → windows_install_bat machine template device ≡ ok out
      → feeds out ≡ feeds template)
    × ((out : Text)
        → windows_remove_bat machine template device ≡ ok out
        → feeds out ≡ feeds template)
windows_bat-feeds_example = windows_bat-feeds machine template template device
