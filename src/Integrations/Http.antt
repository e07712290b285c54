-- ===== src/Integrations/Http.antt =====
-- titoos/integrations/http.py: `HttpIntegration`. `urllib` takes a URL apart and speaks HTTP: `split`
-- is `urlsplit`, none where it raises, and the replies of the servers are an explicit sequence.
pub mod Allowed
use tito_os.Prelude.{
  map, ℕ, String, Bool, true, false, List, [], ◌∷◌, Option, none, some, not, ◌==◌, ◌&&◌, ◌||◌, ◌≡◌,
  refl, if◌then◌else◌, leb, elem, All, arith, inl, inr, Bool-cases,
}
use tito_os.Strings.{concat, lower, upper, ends_with, strip_dots, starts_with}
use tito_os.Errors.{Result, ok, err, out_of_range, empty_name, call_failed, ◌>>=◌}
use tito_os.Dict
use tito_os.Dict.{Dict}
use tito_os.Message.{Value, text, int, arr, obj}
use tito_os.Message.Codec.{to_fields}
use tito_os.Integrations.Allowlist.{normalize_allowlist, redact}
use tito_os.Integrations.Shell.{sorted, texts}

abbrev pub allowed_schemes : List String
allowed_schemes = "http" ∷ "https" ∷ []

abbrev pub allowed_methods : List String
allowed_methods = "GET" ∷ "POST" ∷ "PUT" ∷ "PATCH" ∷ "DELETE" ∷ "HEAD" ∷ []

-- what `urlsplit` gives
pub record Url : Type 0 where
  pub scheme : String
  pub netloc : String
  pub hostname : Option String
  pub path : String
  pub query : String
  pub fragment : String

-- `SECRET_HEADERS`
abbrev pub secret_headers : List String
secret_headers = "authorization" ∷ "proxy-authorization" ∷ "cookie" ∷ "x-api-key" ∷ []

pub record Http : Type 0 where
  pub name : String
  pub allowed_hosts : List String
  pub timeout : ℕ
  pub max_bytes : ℕ
  pub headers : Dict String

-- `dict(headers or {})`
abbrev pub or_empty : Option (Dict String) → Dict String
or_empty none = []
or_empty (some d) = d

abbrev pub http_name : Option String → String
http_name none = "http"
http_name (some n) = n

-- `HttpIntegration.__init__`; a timeout is a number of seconds that is not negative
unfoldable pub make_http : List String → Option String → ℕ → Option (Dict String) → ℕ → Result Http
unfolding normalize_allowlist
make_http allowed_hosts name timeout headers max_bytes =
    if http_name name == ""
    then err empty_name
    else (normalize_allowlist allowed_hosts "allowed_hosts" >>= λ hosts.
        if not (leb 1 timeout)
        then err out_of_range
        else if not (leb 1 max_bytes)
        then err out_of_range
        else ok (record {
          name = http_name name;
          allowed_hosts = hosts;
          timeout = timeout;
          max_bytes = max_bytes;
          headers = or_empty headers;
        }))

abbrev pub as_values : Dict String → Dict Value
as_values = map (λ e. (e.0, text e.1))

-- `describe`
unfoldable pub describe : Http → Dict Value
unfolding sorted redact
describe h =
    ("name", text h.name)
    ∷ ("allowed_hosts", arr (texts (sorted h.allowed_hosts)))
    ∷ ("timeout", int false h.timeout)
    ∷ ("headers", obj (to_fields (redact (as_values h.headers) secret_headers)))
    ∷ []

-- `_host_allowed`
unfoldable pub matches : String → String → Bool
unfolding ends_with strip_dots
matches host pattern =
    host == pattern
    || ((starts_with pattern "." && ends_with host pattern) || host == strip_dots pattern)

unfoldable pub any_match : String → List String → Bool
unfolding matches
any_match host [] = false
any_match host (pattern ∷ patterns) = matches host pattern || any_match host patterns

-- `(parsed.hostname or "").lower()`
unfoldable pub host_of : Url → String
unfolding lower
host_of url = elim url.hostname [ none ↦ "" | some h ↦ lower h ]

abbrev pub check_parts : Http → String → Option Url → Result Url
check_parts h operation none = err (call_failed h.name operation)
check_parts h operation (some url) =
    if not (elem (lower url.scheme) allowed_schemes)
    then err (call_failed h.name operation)
    else if host_of url == ""
    then err (call_failed h.name operation)
    else if not (any_match (host_of url) h.allowed_hosts)
    then err (call_failed h.name operation)
    else ok (record url { scheme = lower url.scheme; fragment = "" })

-- `_check`
unfoldable pub check : (String → Option Url) → Http → String → String → String → Result Url
unfolding any_match host_of
check split h url method operation =
    if not (elem method allowed_methods)
    then err (call_failed h.name operation)
    else check_parts h operation (split url)

-- What the servers do with a request, one hop after the other: a redirection, which `urllib`
-- may follow with GET, an answer of any status with the bytes of its body, or a failure of the transport.
pub data Reply : Type 0 where
  redirected : String → (as_get : Bool) → Reply
  answered : (status : ℕ) → (bytes : ℕ) → Reply
  broken : Reply

-- `HttpResponse`: its status, the size of its body, and the URL that answered
pub record HttpResponse : Type 0 where
  pub status : ℕ
  pub bytes : ℕ
  pub url : String

module _ (split : String → Option Url) (h : Http) where
  abbrev pub received : String → ℕ → ℕ → Result HttpResponse
  received url status bytes =
      if not (leb bytes h.max_bytes)
      then err (call_failed h.name "request")
      else ok (record { status = status; bytes = bytes; url = url })

  -- The hops of `opener.open` behind the first: the result, and the URLs that were opened. A
  -- redirection is checked by `_NoRedirectOutsideAllowlist` before it is followed.
  unfoldable pub follow : String → String → List Reply → Result HttpResponse × List String
  unfolding check
  follow method url [] = (err (call_failed h.name "request"), [])
  follow method url (broken ∷ replies) = (err (call_failed h.name "request"), [])
  follow method url (answered status bytes ∷ replies) = (received url status bytes, [])
  follow method url (redirected new as_get ∷ replies) =
      let (result, opened) = follow (if as_get then "GET" else method) new replies in
      elim (check split h new method "request") [
        | err e ↦ (err e, [])
        | ok _ ↦ (result, new ∷ opened)
      ]

-- `{**first, **second}`
unfoldable pub merge : Dict String → Dict String → Dict String
unfolding Dict.set
merge first [] = first
merge first ((k, v) ∷ second) = merge (Dict.set k v first) second

-- the `urllib.request.Request` that is opened first
pub record Request : Type 0 where
  pub method : String
  pub url : String
  pub body : Option String
  pub headers : Dict String

module _ (split : String → Option Url) (join : Url → String) (h : Http) where
  -- `request` up to the `opener`; `join` is `urlunsplit`.
  unfoldable pub prepare : String → String → Option String → Option (Dict String) → Result Request
  unfolding check upper merge
  prepare method url body headers = elim (check split h url (upper method) "request") [
    | err e ↦ err e
    | ok safe ↦ ok (record {
      method = upper method;
      url = join safe;
      body = body;
      headers = merge h.headers (or_empty headers);
    })
  ]

  abbrev pub opening : List Reply → Result Request → Result HttpResponse × List String
  opening replies (err e) = (err e, [])
  opening replies (ok r) =
      let (result, opened) = follow split h r.method r.url replies in (result, r.url ∷ opened)

  -- `request`: its result, and the URLs that it opened
  unfoldable pub request :
      String
      → String
      → Option String
      → Option (Dict String)
      → List Reply
      → Result HttpResponse × List String
  unfolding prepare follow
  request method url body headers replies = opening replies (prepare method url body headers)

  -- the URL of `get`, with the query `encoded` joined to its own
  unfoldable pub with_query : Url → String → String
  with_query url encoded = join (record url {
    query = if url.query == "" then encoded else concat url.query (concat "&" encoded);
  })

  -- `get`; `encoded` is what `urlencode` makes of the parameters, where there are some.
  unfoldable pub get_url :
      String → Option String → Option (Dict String) → List Reply → Result HttpResponse × List String
  unfolding with_query request
  get_url url none headers replies = request "GET" url none headers replies
  get_url url (some encoded) headers replies = elim (split url) [
    | none ↦ (err (call_failed h.name "get"), [])
    | some parsed ↦ request "GET" (with_query parsed encoded) none headers replies
  ]

  -- `post_json`, of a payload that is written as JSON
  unfoldable pub post_json :
      String → String → Option (Dict String) → List Reply → Result HttpResponse × List String
  unfolding request merge
  post_json url json headers replies =
      request "POST" url (some json)
        (some (merge (("Content-Type", "application/json") ∷ []) (or_empty headers))) replies

-- What a caller asks for, of the names in `operations`, and the method that is found for it.
pub data Call : Type 0 where
  getting : String → Option String → Option (Dict String) → Call
  posting : String → String → Option (Dict String) → Call
  requesting : String → String → Option String → Option (Dict String) → Call

unfoldable pub perform :
    (String → Option Url)
    → (Url → String)
    → Http
    → Call
    → List Reply
    → Result HttpResponse × List String
unfolding get_url post_json request
perform split join h (getting url encoded headers) replies =
    get_url split join h url encoded headers replies
perform split join h (posting url json headers) replies =
    post_json split join h url json headers replies
perform split join h (requesting method url body headers) replies =
    request split join h method url body headers replies
