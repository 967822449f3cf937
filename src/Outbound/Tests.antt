-- ===== src/Outbound/Tests.antt =====
-- An endpoint that says a token is active.
use srh_rs.Base.{◌≡◌, ◌≤◌, refl, true, none, ℕ, Text, text, ok, err, length, []}
use srh_rs.Outbound.{
  answered, whole, is_success, request_bytes, require_success, collect, reason_of,
}
use srh_rs.Outbound.Introspect.{
  Web, HttpIntrospector, is_active, is_active_told, request_of, introspection_limit, built,
}

abbrev pub endpoint : Web
endpoint = record {
  scheme_of = λ url. ok (text "https");
  encode_base64 = λ t. t;
  encode_pair = λ name value. value;
  build_client = ok tt;
  refused = λ request. none;
  send = λ request. answered 200 (whole (text "yes"));
  wording = record {
    show_status = λ n. text "404 Not Found";
    over_limit = text "length limit exceeded";
  };
  read_active = λ body. ok true;
}

abbrev client : HttpIntrospector
client = record { url = text "https://idp/introspect"; authorization = text "Basic x" }

says_active : is_active endpoint client (text "t") ≡ ok true
unfolding is_active built request_bytes require_success collect
says_active = refl

is_active_told_example :
    (status : ℕ) × (body : Text) × (endpoint.send (request_of endpoint client (text "t"))
      ≡ answered status (whole body))
    × (is_success status ≡ true)
    × (length body ≤ introspection_limit)
    × (endpoint.read_active body ≡ ok true)
is_active_told_example = is_active_told endpoint client (text "t") true says_active

refuses_redirects :
    request_bytes (endpoint.wording) (answered 302 (whole [])) 10
    ≡ err (text "redirects are not followed: HTTP 404 Not Found")
unfolding request_bytes require_success reason_of
refuses_redirects = refl
