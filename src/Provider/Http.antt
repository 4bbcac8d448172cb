-- ===== src/Provider/Http.antt =====
-- The HTTP client of the providers (internal/providers/http_client.go): the attributes that the span of
-- a request has, and the limit on a body. What the providers record of an error is not in these
-- attributes.
use Prim.Native.String.{len}
use kube_greencosts.Prelude.{
  ◌||◌, ◌==◌, ℕ, ◌+◌, ◌≤◌, String, ◌≡◌, refl, ap, subst, inl, inr, Bool, true, false, Bool-cases,
  Option, none, some, List, [], ◌∷◌, leb, ltb, arith, if◌then◌else◌,
}

abbrev pub has_text : String → List String → Bool
has_text s [] = false
has_text s (t ∷ ts) = t == s || has_text s ts

abbrev pub redacted_value : String
redacted_value = "REDACTED"

-- `url.Values`: the keys, each once, with their values
abbrev pub Query : Type 0
Query = List (String × List String)

-- `url.URL`: the parts that are read, and what `String` takes besides
pub record Url : Type 0 where
  pub scheme : String
  pub hostname : String
  pub raw_query : String
  pub rest : String

-- the loop of `redactedURL`
unfoldable pub redacted : List String → Query → Query
redacted keys [] = []
redacted keys ((key, values) ∷ query) =
    (key, (if has_text key keys then redacted_value ∷ [] else values)) ∷ redacted keys query

-- the attributes of a span
pub record Attributes : Type 0 where
  pub method : String
  pub server_address : String
  pub url_scheme : String
  pub url_full : String

pub data Code : Type 0 where
  unset error : Code

-- `statusCode`
abbrev pub status_code : ℕ → Code
status_code code = if leb 400 code then error else unset

abbrev pub limited : ℕ → Option String → Option String
limited max_bytes none = none
limited max_bytes (some body) = if ltb max_bytes (len body) then none else some body

-- `ReadLimitedBody`, for a reader that gives at most so many bytes, or fails
abbrev pub read_limited_body : (ℕ → Option String) → ℕ → Option String
read_limited_body read_at_most max_bytes = limited max_bytes (read_at_most (max_bytes + 1))

module _ (parse_query : String → Query) (encode_query : Query → String)
    (url_text : Url → String) where
  -- `redactedURL`
  abbrev pub redacted_url : Option Url → List String → String
  redacted_url none keys = ""
  redacted_url (some u) keys =
      url_text (record u { raw_query = encode_query (redacted keys (parse_query u.raw_query)) })

  -- `requestAttributes`
  unfoldable pub request_attributes : List String → String → Url → Attributes
  request_attributes keys method u = record {
    method = method;
    server_address = u.hostname;
    url_scheme = u.scheme;
    url_full = redacted_url (some u) keys;
  }

-- The queries have the same keys, and the same values but under the keys that are redacted.
pub data AgreeBut (keys : List String) : Query → Query → Type 0 where
  nothing : AgreeBut keys [] []
  secret :
      (key : String) (values values' : List String) {query query' : Query}
      → has_text key keys ≡ true
      → AgreeBut keys query query'
      → AgreeBut keys ((key, values) ∷ query) ((key, values') ∷ query')
  open_value :
      (key : String) (values : List String) {query query' : Query}
      → AgreeBut keys query query'
      → AgreeBut keys ((key, values) ∷ query) ((key, values) ∷ query')

redacted_same :
    (keys : List String) {query query' : Query}
    → AgreeBut keys query query'
    → redacted keys query ≡ redacted keys query'
unfolding redacted
redacted_same keys nothing = refl
redacted_same keys (secret key values values' hidden rest) =
    rw hidden (ap (λ (q : Query). (key, redacted_value ∷ []) ∷ q) (redacted_same keys rest))
redacted_same keys (open_value key values rest) =
    ap (λ (q : Query). (key, if has_text key keys then redacted_value ∷ [] else values) ∷ q)
      (redacted_same keys rest)

module _ (parse_query : String → Query) (encode_query : Query → String)
    (url_text : Url → String) where
  -- The attributes with which the HTTP client starts the span of a request do not depend on the values
  -- under the query keys that are redacted: for two URLs that differ only in such values of their
  -- queries, the attributes are equal.
  pub redacted_attributes :
      (keys : List String) (method : String) (u : Url) (raw_query : String)
      → AgreeBut keys (parse_query u.raw_query) (parse_query raw_query)
      → request_attributes parse_query encode_query url_text keys method u
        ≡ request_attributes parse_query encode_query url_text keys method
            (record u { raw_query = raw_query })
  unfolding request_attributes
  redacted_attributes keys method u raw_query agree =
      ap
        (λ (q : Query). (record {
          method = method;
          server_address = u.hostname;
          url_scheme = u.scheme;
          url_full = url_text (record u { raw_query = encode_query q });
        }))
        (redacted_same keys agree)

limited-le :
    (max_bytes : ℕ) (answer : Option String) (body : String)
    → limited max_bytes answer ≡ some body
    → len body ≤ max_bytes
limited-le max_bytes none body = λ h. absurd (cc)
limited-le max_bytes (some text) body = elim (Bool-cases (ltb max_bytes (len text))) [
  | inl over ↦ rw over (λ h. absurd (cc))
  | inr within ↦ rw within (λ h.
      let same : text ≡ body = cc in
      subst (λ (s : String). len s ≤ max_bytes) same (fits (len text) within))
]
  where
    fits : (n : ℕ) → ltb max_bytes n ≡ false → n ≤ max_bytes
    fits n h = ground arith

-- A body that is read is within the limit.
pub read_limited_body-le :
    (read_at_most : ℕ → Option String) (max_bytes : ℕ) (body : String)
    → read_limited_body read_at_most max_bytes ≡ some body
    → len body ≤ max_bytes
read_limited_body-le read_at_most max_bytes body =
    limited-le max_bytes (read_at_most (max_bytes + 1)) body
