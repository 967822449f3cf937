-- ===== src/Outbound/Introspect.antt =====
-- src/adapters/http_introspect.rs: asking an endpoint of RFC 7662 whether a token is active. Parsing
-- URLs, base64, form encoding, building requests and reading JSON are packages', and parameters.
use srh_rs.Base.{
  ℕ, ◌≤◌, ◌≡◌, Bool, true, ◌||◌, ◌++◌, Option, none, some, Text, text, text_eq, Result, ok, err,
  map_err, map_err-eq-ok, ◌>>=◌, >>=-eq-ok, length, if◌then◌else◌, arith, Option-cases, inl, inr,
  ap, ◌∙◌,
}
use srh_rs.Identity.{IntrospectError}
use srh_rs.Outbound.{
  Exchange, Wording, answered, whole, is_success, request_bytes, request_bytes-eq-ok,
}

abbrev pub introspection_limit : ℕ
introspection_limit = 65536

-- A `POST` of a form.
pub record FormRequest : Type 0 where
  pub uri : Text
  pub authorization : Text
  pub body : Text

-- The outside: URLs, encoders, whether a client can be built, and what it answers.
pub record Web : Type 0 where
  pub scheme_of : Text → Result Text Text
  pub encode_base64 : Text → Text
  pub encode_pair : Text → Text → Text
  pub build_client : Result (Unit {0}) Text
  pub refused : FormRequest → Option Text
  pub send : FormRequest → Exchange
  pub wording : Wording
  -- The member `active` of a document.
  pub read_active : Text → Result Bool Text

pub record HttpIntrospector : Type 0 where
  pub url : Text
  pub authorization : Text

abbrev failure : Text → Text → IntrospectError
failure what error = record { message = what ++ error }

module _ (web : Web) where
  -- `HttpIntrospector::new`.
  unfoldable pub new :
      (url client_id client_secret : Text) → Result HttpIntrospector IntrospectError
  unfolding text_eq
  new url client_id client_secret =
      map_err (failure (text "invalid introspection URL: ")) (web.scheme_of url) >>= λ scheme.
      if text_eq scheme (text "http") || text_eq scheme (text "https")
      then (map_err (λ m. record { message = m }) web.build_client >>= λ client. ok (record {
        url = url;
        authorization =
            text "Basic " ++ web.encode_base64 (client_id ++ (text ":" ++ client_secret));
      }))
      else err (record { message = text "introspection URL must use http or https" })

  abbrev pub request_of : HttpIntrospector → Text → FormRequest
  request_of i token = record {
    uri = i.url;
    authorization = i.authorization;
    body = web.encode_pair (text "token") token;
  }

  unfoldable pub built : FormRequest → Result FormRequest IntrospectError
  built request = elim (web.refused request) [
    | none ↦ ok request
    | some error ↦ err (failure (text "invalid introspection request: ") error)
  ]

  unfoldable pub is_active : HttpIntrospector → Text → Result Bool IntrospectError
  unfolding built request_bytes
  is_active i token = built (request_of i token) >>= λ request.
      map_err (λ m. record { message = m })
        (request_bytes web.wording (web.send request) introspection_limit)
      >>= λ response.
          map_err (failure (text "invalid introspection response: ")) (web.read_active response)

  built-eq-ok : (r q : FormRequest) → built r ≡ ok q → r ≡ q
  unfolding built
  built-eq-ok r q h = elim (Option-cases (web.refused r)) [
    | inl fine ↦ ground arith
    | inr (error, bad) ↦ absurd (ground arith)
  ]

  -- A token counts as active only if the endpoint, asked with this token and the client's
  -- credentials, answered with a successful status and a whole body within the limit that says so.
  pub is_active_told :
      (i : HttpIntrospector) (token : Text) (active : Bool)
      → is_active i token ≡ ok active
      → (status : ℕ) × (body : Text) × (web.send (request_of i token)
          ≡ answered status (whole body))
        × (is_success status ≡ true)
        × (length body ≤ introspection_limit)
        × (web.read_active body ≡ ok active)
  unfolding is_active
  is_active_told i token active h =
      let (request, made, h1) = >>=-eq-ok (built (request_of i token)) _ h in
      let (body, came, h2) =
        >>=-eq-ok
          (map_err (λ m. record { message = m })
            (request_bytes web.wording (web.send request) introspection_limit))
          _ h1 in
      let (status, answer, success, short) =
        request_bytes-eq-ok web.wording (web.send request) introspection_limit body (
          map_err-eq-ok (λ m. record { message = m })
            (request_bytes web.wording (web.send request) introspection_limit) body came) in
      (
        status,
        body,
        ap web.send (built-eq-ok (request_of i token) request made) ∙ answer,
        success,
        short,
        map_err-eq-ok (failure (text "invalid introspection response: ")) (web.read_active body)
            active h2,
      )
