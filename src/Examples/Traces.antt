-- ===== src/Examples/Traces.antt =====
-- A request to ENTSO-E in a trace.
use Prim.Native.String
use kube_greencosts.Prelude.{String, ◌≡◌, refl, List, [], ◌∷◌}
use kube_greencosts.Provider.Http.{
  Query, Url, Attributes, redacted, request_attributes, nothing, secret, open_value,
  redacted_attributes,
}

-- The raw query is the token.
abbrev parse_query : String → Query
parse_query raw = ("in_Domain", "10YNL----------L" ∷ []) ∷ ("securityToken", raw ∷ []) ∷ []

abbrev encode_values : List String → String
encode_values [] = ""
encode_values (value ∷ values) = String.◌++◌ "=" (String.◌++◌ value (encode_values values))

abbrev encode_query : Query → String
encode_query [] = ""
encode_query ((key, values) ∷ query) =
    String.◌++◌ "&" (String.◌++◌ key (String.◌++◌ (encode_values values) (encode_query query)))

abbrev url_text : Url → String
url_text u = String.◌++◌ u.hostname (String.◌++◌ u.rest (String.◌++◌ "?" u.raw_query))

abbrev entsoe_url : String → Url
entsoe_url raw = record {
  scheme = "https";
  hostname = "web-api.tp.entsoe.eu";
  raw_query = raw;
  rest = "/api";
}

abbrev traced : String → Attributes
traced raw =
    request_attributes parse_query encode_query url_text ("securityToken" ∷ []) "GET"
      (entsoe_url raw)

shows :
    (traced "s3cret").url_full
    ≡ "web-api.tp.entsoe.eu/api?&in_Domain=10YNL----------L&securityToken=REDACTED"
unfolding request_attributes redacted
shows = refl

redacted_attributes_example : traced "s3cret" ≡ traced "other"
redacted_attributes_example =
    redacted_attributes parse_query encode_query url_text ("securityToken" ∷ []) "GET"
      (entsoe_url "s3cret") "other"
      (open_value "in_Domain" ("10YNL----------L" ∷ [])
        (secret "securityToken" ("s3cret" ∷ []) ("other" ∷ []) refl nothing))
