-- ===== src/Digest/Letter.antt =====
-- internal/digest/template.go: RenderDigestEmail, the HTML of the weekly letter. html.EscapeString is an
-- argument.
use teen_dns.Base.{◌++◌, if◌then◌else◌, List, [], ◌∷◌, Text, codes, is_empty, lookup, text_eq}
use teen_dns.Digest.{period_morning, period_afternoon, period_evening}
use teen_dns.Digest.Report.{DomainPeriods, CategoryDigest, number}
use teen_dns.Classifier.Rating.{itoa}

abbrev pub counted : DomainPeriods → Text → Text
counted d period = itoa (number (lookup period d.counts))

unfoldable pub domain_items : (Text → Text) → List DomainPeriods → Text
domain_items escape [] = []
domain_items escape (d ∷ ds) =
    codes "<li>"
    ++ escape d.domain
    ++ codes " — manhã: "
    ++ counted d period_morning
    ++ codes ", tarde: "
    ++ counted d period_afternoon
    ++ codes ", noite: "
    ++ counted d period_evening
    ++ codes "</li>"
    ++ domain_items escape ds

abbrev pub title_of : CategoryDigest → Text
title_of c = if is_empty c.group_name then c.category else c.group_name

abbrev pub proposal : (Text → Text) → Text → Text
proposal escape reason =
    if is_empty reason
    then []
    else codes "<p><em>Proposta de conversa:</em> " ++ escape reason ++ codes "</p>"

unfoldable pub category_sections : (Text → Text) → List CategoryDigest → Text
unfolding domain_items
category_sections escape [] = []
category_sections escape (c ∷ cs) =
    codes "<h2>"
    ++ escape (title_of c)
    ++ codes "</h2>"
    ++ proposal escape c.reason
    ++ codes "<ul>"
    ++ domain_items escape c.domains
    ++ codes "</ul>"
    ++ category_sections escape cs

abbrev pub letter_body : (Text → Text) → List CategoryDigest → Text
letter_body escape [] = codes "<p>Nenhum domínio observado nesta semana.</p>"
letter_body escape (c ∷ cs) =
    codes
      "<p>Estes são os domínios observados (não bloqueados) esta semana, agrupados por período do dia. Não é uma lista completa de navegação — só o que foi marcado como \"Observar\" no painel.</p>"
    ++ category_sections escape (c ∷ cs)

-- RenderDigestEmail
unfoldable pub render_digest_email : (Text → Text) → Text → List CategoryDigest → Text
unfolding category_sections
render_digest_email escape house_name report =
    codes "<h1>Resumo semanal — " ++ escape house_name ++ codes "</h1>" ++ letter_body escape report
