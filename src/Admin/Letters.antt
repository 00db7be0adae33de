-- ===== src/Admin/Letters.antt =====
-- publicLink and the letters of the control plane. The environment, url.QueryEscape and
-- html.EscapeString are arguments.
use teen_dns.Base.{◌++◌, [], if◌then◌else◌, Text, codes, is_empty, trim_space, trim_suffix}

-- environmentOrDefault of a variable's value, "" where it is not set
unfoldable pub environment_or_default : Text → Text → Text
environment_or_default value fallback =
    if is_empty (trim_space value) then fallback else trim_space value

-- What the links are made of: TEENDNS_PUBLIC_URL and the host of the request.
pub record Site : Type 0 where
  pub public_url : Text
  pub host : Text
  pub query_escape : Text → Text
  pub escape_string : Text → Text

abbrev pub base_or_host : Text → Text → Text
base_or_host base host = if is_empty base then codes "https://" ++ host else base

unfoldable pub public_link : Site → Text → Text → Text → Text
unfolding environment_or_default
public_link site path param value =
    base_or_host (trim_suffix (environment_or_default site.public_url []) (codes "/")) site.host
    ++ path
    ++ codes "?"
    ++ param
    ++ codes "="
    ++ site.query_escape value

pub record Mail : Type 0 where
  pub to : Text
  pub subject : Text
  pub body : Text

-- The paragraph with the escaped link, between two texts.
abbrev pub around_link : Site → Text → Text → Text → Text
around_link site before link after =
    before
    ++ codes "<a href=\""
    ++ site.escape_string link
    ++ codes "\">"
    ++ site.escape_string link
    ++ codes "</a>"
    ++ after

unfoldable pub invitation_email_body : Site → Text → Text
invitation_email_body site link =
    around_link site (codes "<p>Você foi convidado a criar uma casa no teenDNS.</p><p>") link
      (codes "</p><p>Este link é de uso único e expira em 7 dias.</p>")

unfoldable pub magic_link_email_body : Site → Text → Text
magic_link_email_body site link =
    around_link site (codes "<p>Use o link abaixo para entrar no painel do teenDNS.</p><p>") link
      (codes "</p><p>Este link é de uso único e expira em 15 minutos.</p>")

abbrev pub waitlist_email_body : Text
waitlist_email_body =
    codes
      "<p>Recebemos seu pedido de acesso ao teenDNS. Ainda não encontramos uma casa com este e-mail, então você entrou na nossa lista de espera — avisamos assim que houver um convite disponível.</p>"
