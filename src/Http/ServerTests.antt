-- ===== src/Http/ServerTests.antt =====
-- Requests to the server, and the theorems on it at concrete inputs.
use srh_rs.Base.{
  ◌≡◌, ◌⊎◌, ◌↔◌, refl, true, false, suc, total, List, [], ◌∷◌, ◌++◌, Option, none, some, Text, text,
  text_eq, ok, if◌then◌else◌,
}
use srh_rs.Resp
use srh_rs.Resp.{PoolReadiness}
use srh_rs.RateLimit.Whole.{whole_tokens}
use srh_rs.Auth.{Authenticator}
use srh_rs.Parse.Tests.{small}
use srh_rs.Http.Effect.{whole, Server}
use srh_rs.Http.Audit.{observe}
use srh_rs.Http.Audited.{Told, observe-Told}
use srh_rs.Http.Serve.{
  Request, Limits, post, get, serve, routed, place_of, pipeline, ready, is_get, ping, pings,
}
use srh_rs.Http.Served.{Sent, serve-Sent}
use srh_rs.Http.Observe.{no_fields, Recorded}
use srh_rs.Http.InFlight.{Move, arrives, answers, expires, leaves, opened, run, step, is_limited}
use srh_rs.Http.Balanced.{Balanced, run-Balanced, after, shed_iff, held}
use srh_rs.Http.Labelled.{Labelled, run-Labelled}
use srh_rs.Http.Tests.{reader, digest, cfg, redis_says, fresh}

abbrev pub limits : Limits
limits = record { max_body_bytes = 100; max_pipeline_commands = 10; max_request_elements = 50 }

abbrev knows : Authenticator
knows bearer = ok (if text_eq bearer (text "t") then some reader else none)

abbrev pub ask : Option Text → Request
ask authorization = record {
  path = text "/pipeline";
  method = post;
  authorization = authorization;
  encoding = none;
  content_length = some 40;
  body = whole (text "[]");
  loopback = false;
}

abbrev asked : Server (whole_tokens.F)
asked =
    (serve whole_tokens digest small limits cfg knows redis_says [] (ask (some (text "Bearer t"))) 5
      6 fresh).0

serve-Sent_example :
    Sent (whole_tokens.F) digest limits knows (some (text "Bearer t")) fresh asked
    ⊎ ((place_of (text "/pipeline") ≡ ready)
        × (is_get post ≡ true)
        × (false ≡ true)
        × (asked.sent ≡ fresh.sent ++ pings []))
serve-Sent_example =
    serve-Sent whole_tokens digest small limits cfg knows redis_says []
      (ask (some (text "Bearer t"))) 5 6 fresh

-- A readiness check on a server with one pool.
abbrev one_pool : List PoolReadiness
one_pool = record { pool = text "default"; status = Resp.ready } ∷ []

checked :
    (serve whole_tokens digest small limits cfg knows redis_says one_pool
      (record (ask none) { path = text "/ready"; method = get; loopback = true })
      5
      6
      fresh).0.sent
    ≡ (ping ∷ []) ∷ []
unfolding serve routed place_of
checked = refl

-- One permit: the second request for the API is shed, the probe is not.
abbrev busy : List Move
busy =
    arrives (text "/") 0
    ∷ arrives (text "/pipeline") 0
    ∷ arrives (text "/health") 0
    ∷ answers 2 no_fields 200 1
    ∷ expires 0 no_fields 900
    ∷ arrives (text "/") 0
    ∷ leaves 3
    ∷ arrives (text "/multi-exec") 0
    ∷ []

run-Balanced_example : Balanced 1 (run 1 (opened 1) busy)
run-Balanced_example = run-Balanced 1 1 busy

shed_iff_example :
    ((step 1 (after 1 1 busy) (arrives (text "/") 0)).shed ≡ suc (after 1 1 busy).shed)
    ↔ ((is_limited (place_of (text "/")) ≡ true) × (total held (after 1 1 busy).requests ≡ 1))
shed_iff_example = shed_iff 1 1 busy (text "/") 0

shed_twice : (step 1 (after 1 1 busy) (arrives (text "/") 0)).shed ≡ 2
unfolding after run opened step
shed_twice = refl

run-Labelled_example : Labelled (run 1 (opened 1) busy)
run-Labelled_example = run-Labelled 1 1 busy

abbrev no_record : Recorded
no_record = record { counted = []; lines = [] }

abbrev observed : Server (whole_tokens.F) × Recorded
observed =
    observe whole_tokens digest small limits cfg knows redis_says [] (ask (some (text "Bearer t")))
      5 6 3 (fresh, no_record)

observe-Told_example :
    (observed.0.sent ≡ fresh.sent)
    ⊎ Told whole_tokens digest small limits cfg knows redis_says []
        (ask (some (text "Bearer t")))
        fresh
        observed.0
        no_record
        observed.1
unfolding place_of
observe-Told_example =
    observe-Told whole_tokens digest small limits cfg knows redis_says []
      (ask (some (text "Bearer t"))) pipeline 5 6 3 fresh no_record refl
