-- ===== src/Admin/Devices.antt =====
-- serveSetupFile, doHURL, normalizeDoHBaseURL and setupParams: what a device is set up with. net/url is an
-- argument, and so are the texts of the scripts and SHA-256.
use teen_dns.Base.{
  ℕ, Bool, not, ◌&&◌, if◌then◌else◌, [], ◌++◌, reverse, Option, none, some, Text, codes,
  texts_equal, is_empty, trim_space, drop_code, Result, ok, err, ◌>>=◌, ◌>>◌, require,
}
use teen_dns.Platform.{Platform}
use teen_dns.Policy.{Profile}
use teen_dns.Setup.{Params, SetupError, windows_install_bat, windows_remove_bat}
use teen_dns.Setup.Apple.{apple_mobile_config}
use teen_dns.Admin.Youth.{first_label}

-- What url.Parse makes of an address, and the texts of the templates.
pub record BaseUrl : Type 0 where
  pub scheme : Text
  pub host : Text
  pub has_user : Bool
  pub raw_query : Text
  pub fragment : Text
  pub path : Text

pub record Devices : Type 0 where
  pub dns_ip : Text
  pub dns_port : Text
  pub test_domain : Text
  pub doh_base_url : Text
  pub path_escape : Text → Text
  pub sha256 : Text → Text
  pub install_template : Text
  pub remove_template : Text
  pub payload_top : Text

pub record SetupInfo : Type 0 where
  pub hostname : Text
  pub ip : Text
  pub port : Text
  pub test_domain : Text
  pub doh_url : Text

-- A file goes with its media type and its name.
pub data SetupReply : Type 0 where
  info : SetupInfo → SetupReply
  file : Text → Text → Text → SetupReply

-- strings.TrimRight(path, "/")
unfoldable pub trim_slashes : Text → Text
trim_slashes path = reverse (drop_code b'/' (reverse path))

abbrev pub parsed_url : Option BaseUrl → Result (Unit {0}) BaseUrl
parsed_url none = err tt
parsed_url (some url) = ok url

-- normalizeDoHBaseURL; `print` is url.URL.String
unfoldable pub normalize_doh_base_url :
    (Text → Option BaseUrl) → (BaseUrl → Text) → Text → Result (Unit {0}) Text
unfolding trim_slashes
normalize_doh_base_url parse print raw = if is_empty (trim_space raw) then ok [] else (do
  url ← parsed_url (parse (trim_space raw))
  require
      (texts_equal url.scheme (codes "https")
        && not (is_empty url.host)
        && not url.has_user
        && is_empty url.raw_query
        && is_empty url.fragment)
      tt
  require (texts_equal (trim_slashes url.path) (codes "/dns-query")) tt
  ok (print (record url { path = trim_slashes url.path })))

unfoldable pub doh_url : Devices → Text → Text
doh_url c hostname =
    if is_empty c.doh_base_url
    then []
    else c.doh_base_url ++ codes "/" ++ c.path_escape (first_label hostname)

abbrev pub setup_params : Devices → Profile → Params
setup_params c p = record {
  hostname = p.hostname;
  ip = c.dns_ip;
  port = c.dns_port;
  test_domain = c.test_domain;
}

abbrev pub file_reply : Text → Text → Result SetupError Text → Result ℕ SetupReply
file_reply mime name (err e) = err 422
file_reply mime name (ok content) = ok (file mime name content)

abbrev pub windows_mime : Text
windows_mime = codes "text/plain; charset=utf-8"

abbrev pub apple_mime : Text
apple_mime = codes "application/x-apple-aspen-config; charset=utf-8"

unfoldable pub setup_of : Platform → Devices → Profile → Text → Result ℕ SetupReply
unfolding doh_url
setup_of env c p kind =
    if texts_equal kind (codes "info")
    then ok (
        info (record {
          hostname = p.hostname;
          ip = c.dns_ip;
          port = c.dns_port;
          test_domain = c.test_domain;
          doh_url = doh_url c p.hostname;
        }))
    else if texts_equal kind (codes "windows.bat")
    then file_reply windows_mime (codes "configurar-teendns.bat")
        (windows_install_bat env c.install_template (setup_params c p))
    else if texts_equal kind (codes "windows-remove.bat")
    then file_reply windows_mime (codes "remover-teendns.bat")
        (windows_remove_bat env c.remove_template (setup_params c p))
    else if texts_equal kind (codes "apple.mobileconfig")
    then file_reply apple_mime (codes "teendns.mobileconfig")
        (apple_mobile_config env c.sha256 c.payload_top (setup_params c p))
    else err 404

-- serveSetupFile
unfoldable pub serve_setup_file : Platform → Devices → Profile → Text → Result ℕ SetupReply
unfolding setup_of
serve_setup_file env c p kind = if p.disabled then err 404 else setup_of env c p kind
