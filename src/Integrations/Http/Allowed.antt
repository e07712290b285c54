-- ===== src/Integrations/Http/Allowed.antt =====
-- Which URLs titoos/integrations/http.py opens, and what it sends and keeps.
use tito_os.Prelude.{
  ℕ, String, Bool, true, false, List, [], ◌∷◌, Option, none, some, ◌==◌, ◌≡◌, refl, ap, sym,
  if◌then◌else◌, leb, elem, All, arith, inl, inr, Bool-cases, Option-cases, subst, ◌⊎◌, ◌≤◌,
}
use tito_os.Strings.{lower, upper}
use tito_os.Errors.{Result, ok, err, Error, Result-cases}
use tito_os.Dict.{Dict}
use tito_os.Integrations.Http.{
  Url, Http, HttpResponse, Reply, redirected, answered, broken, allowed_schemes, allowed_methods,
  any_match, host_of, check, check_parts, follow, received, prepare, request, get_url, post_json,
  with_query, merge, or_empty, Call, getting, posting, requesting, perform,
}

-- A URL as it was checked: its scheme in small letters, without its fragment.
abbrev pub checked : Url → Url
unfolding lower
checked parts = record parts { scheme = lower parts.scheme; fragment = "" }

-- A URL that may be opened: `urlsplit` gives its parts, or it was put together from the parts that
-- `urlsplit` gave of a URL, with its scheme in small letters and without its fragment; and the parts
-- are those of an http or https URL at a host that the allowlist matches.
pub record IsAllowed (split : String → Option Url) (join : Url → String) (h : Http) (url : String)
    : Type 0 where
  pub parts : Url
  pub made_of :
      (split url ≡ some parts)
      ⊎ ((asked : String) × (split asked ≡ some parts) × (url ≡ join (checked parts)))
  pub scheme : elem (lower parts.scheme) allowed_schemes ≡ true
  pub host : any_match (host_of parts) h.allowed_hosts ≡ true

module _ (split : String → Option Url) (join : Url → String) (h : Http) where
  -- what the check found out about the parts of a URL
  abbrev Passed : String → Url → Type 0
  Passed url safe =
      (parts : Url) × (split url ≡ some parts)
      × (safe ≡ checked parts)
      × (elem (lower parts.scheme) allowed_schemes ≡ true)
      × (any_match (host_of parts) h.allowed_hosts ≡ true)

  returned : {a b : Url} → ◌≡◌ {A = Result Url} (ok a) (ok b) → a ≡ b
  returned e = cc

  check_parts-Passed :
      (operation url : String) (o : Option Url) (safe : Url)
      → split url ≡ o
      → check_parts h operation o ≡ ok safe
      → Passed url safe
  unfolding checked
  check_parts-Passed operation url none safe e h' = absurd (ground arith)
  check_parts-Passed operation url (some parts) safe e h' =
      let scheme : elem (lower parts.scheme) allowed_schemes ≡ true = ground arith in
      let named : (host_of parts == "") ≡ false = ground arith in
      let host : any_match (host_of parts) h.allowed_hosts ≡ true = ground arith in
      (parts, e, sym (returned (rw (scheme, named, host) at h')), scheme, host)

  check-Passed :
      (url method operation : String) (safe : Url)
      → check split h url method operation ≡ ok safe
      → Passed url safe
  unfolding check
  check-Passed url method operation safe e = elim (Bool-cases (elem method allowed_methods)) [
    | inl listed ↦ check_parts-Passed operation url (split url) safe refl (rw (listed, check) at e)
    | inr other ↦ absurd (ground arith)
  ]

  -- a request that may go out: its URLs are allowed, and a result is within the bound
  abbrev pub IsSafe : Result HttpResponse × List String → Type 0
  IsSafe x =
      All (IsAllowed split join h) x.1 × ((r : HttpResponse) → x.0 ≡ ok r → r.bytes ≤ h.max_bytes)

  received-bounded :
      (url : String) (status bytes : ℕ) (r : HttpResponse)
      → received split h url status bytes ≡ ok r
      → r.bytes ≤ h.max_bytes
  received-bounded url status bytes r e = elim (Bool-cases (leb bytes h.max_bytes)) [
    | inl within ↦ ground arith
    | inr over ↦ absurd (ground arith)
  ]

  -- one more URL that is allowed
  IsSafe-cons :
      (url : String) (x : Result HttpResponse × List String)
      → IsAllowed split join h url
      → IsSafe x
      → IsSafe (x.0, url ∷ x.1)
  IsSafe-cons url x allowed (all, bounded) = ((allowed, all), bounded)

  refused-IsSafe : (e : Error) → IsSafe (err e, [])
  refused-IsSafe e = (tt, λ r h. absurd cc)

  followed :
      (method url new : String) (as_get : Bool) (replies : List Reply) (safe : Url)
      → check split h new method "request" ≡ ok safe
      → follow split h method url (redirected new as_get ∷ replies) ≡ (
        (follow split h (if as_get then "GET" else method) new replies).0,
        new ∷ (follow split h (if as_get then "GET" else method) new replies).1,
      )
  unfolding follow
  followed method url new as_get replies safe goes = rw (follow, goes) refl

  not_followed :
      (method url new : String) (as_get : Bool) (replies : List Reply) (e : Error)
      → check split h new method "request" ≡ err e
      → follow split h method url (redirected new as_get ∷ replies) ≡ (err e, [])
  unfolding follow
  not_followed method url new as_get replies e stops = rw (follow, stops) refl

  follow-IsSafe :
      (method url : String) (replies : List Reply) → IsSafe (follow split h method url replies)
  follow-IsSafe method url [] = (unfold follow in refused-IsSafe _)
  follow-IsSafe method url (broken ∷ replies) = (unfold follow in refused-IsSafe _)
  follow-IsSafe method url (answered status bytes ∷ replies) =
      (unfold follow in (tt, received-bounded url status bytes))
  follow-IsSafe method url (redirected new as_get ∷ replies) =
      let rest = follow-IsSafe (if as_get then "GET" else method) new replies in
      elim (Result-cases (check split h new method "request")) [
        | inr (e, stops) ↦
            subst IsSafe (sym (not_followed method url new as_get replies e stops))
              (refused-IsSafe e)
        | inl (safe, goes) ↦
            let (parts, splits, same, scheme, host) = check-Passed new method "request" safe goes in
            subst IsSafe (sym (followed method url new as_get replies safe goes)) (
              IsSafe-cons new (follow split h (if as_get then "GET" else method) new replies)
                (record { parts = parts; made_of = inl splits; scheme = scheme; host = host }) rest)
      ]

  request-IsSafe :
      (method url : String) (body : Option String) (headers : Option (Dict String))
      (replies : List Reply)
      → IsSafe (request split join h method url body headers replies)
  unfolding request prepare
  request-IsSafe method url body headers replies =
      elim (Result-cases (check split h url (upper method) "request")) [
        | inr (e, stops) ↦ rw (request, prepare, stops) (refused-IsSafe e)
        | inl (safe, goes) ↦
            let (parts, splits, same, scheme, host) =
              check-Passed url (upper method) "request" safe goes in
            let sent : request split join h method url body headers replies ≡ (
              (follow split h (upper method) (join safe) replies).0,
              join safe ∷ (follow split h (upper method) (join safe) replies).1,
            ) =
              rw (request, prepare, goes) refl in
            subst IsSafe (sym sent) (
              IsSafe-cons (join safe) (follow split h (upper method) (join safe) replies)
                (record {
                  parts = parts;
                  made_of = inr (url, splits, ap join same);
                  scheme = scheme;
                  host = host;
                })
                (follow-IsSafe (upper method) (join safe) replies))
      ]

  -- Whatever is asked for and however the servers redirect it, every URL that is opened is one that
  -- `urlsplit` takes for an http or https URL at a host that the allowlist matches, or was put
  -- together by `urlunsplit` from the parts of such a URL; and a response has at most `max_bytes`
  -- bytes.
  pub perform-IsSafe : (c : Call) (replies : List Reply) → IsSafe (perform split join h c replies)
  unfolding perform get_url post_json
  perform-IsSafe (requesting method url body headers) replies =
      request-IsSafe method url body headers replies
  perform-IsSafe (posting url json headers) replies =
      request-IsSafe "POST" url (some json)
        (some (merge (("Content-Type", "application/json") ∷ []) (or_empty headers))) replies
  perform-IsSafe (getting url none headers) replies = request-IsSafe "GET" url none headers replies
  perform-IsSafe (getting url (some encoded) headers) replies = elim (Option-cases (split url)) [
    | inl malformed ↦ rw (get_url, malformed) (refused-IsSafe _)
    | inr (parsed, splits) ↦
        rw (get_url, splits)
          (request-IsSafe "GET" (with_query split join h parsed encoded) none headers replies)
  ]
