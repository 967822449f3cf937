-- ===== src/Http/Tests.antt =====
-- Requests to the handlers, and their theorems at concrete inputs.
use srh_rs.Base.{
  ◌≡◌, refl, ◌⊎◌, true, false, List, [], ◌∷◌, none, some, Text, text, Result, ok, err, length, map,
  All, to_ascii_uppercase, contains, text_eq, is_empty,
}
use srh_rs.Identity.{Identity}
use srh_rs.Resp.{RespValue, RedisCommand, ExecError, redis, bulk}
use srh_rs.RateLimit.{with_max_buckets}
use srh_rs.RateLimit.Whole.{whole_tokens}
use srh_rs.Acl.{
  check, check_name, check_scripting, hard_denied, blocks, sorts_by_keys, default_denied,
  admin_allow, denied,
}
use srh_rs.Acl.Lists.{hard_deny, scripting, default_block, read_commands}
use srh_rs.Compat.{normalize}
use srh_rs.Convert.{plain}
use srh_rs.Http.Effect.{
  Server, Settings, Backend, whole, read_body, ParseError, error, charge_rate_limit,
}
use srh_rs.Http.Pipeline
use srh_rs.Http.Pipeline.{sort_commands, respond}
use srh_rs.Http.MultiExec
use srh_rs.Http.Charged.{pipeline-charges, pipeline_cost}
use srh_rs.Http.Permitted.{pipeline-Sends, transaction-Sends}
use srh_rs.Http.Sends.{Sends, permitted}
use srh_rs.Http.Answered.{Answers, respond-Answers}

abbrev pub reader : Identity
reader = record {
  subject = text "reader";
  bucket_key = text "reader";
  pool = text "default";
  read_only = true;
  is_admin = false;
  legacy = false;
  allowed_commands = none;
  blocked_commands = [];
  allowed_script_sha256 = [];
  key_prefix = none;
}

abbrev get_a : RedisCommand
get_a = record { name = text "get"; args = text "a" ∷ [] }

abbrev set_a : RedisCommand
set_a = record { name = text "set"; args = text "a" ∷ text "1" ∷ [] }

abbrev pub digest : Text → Text
digest t = t

abbrev pub cfg : Settings
cfg = record { max_response_bytes = 1000; shed_retry_after_secs = 1 }

abbrev pub redis_says : Backend
redis_says = record {
  acquire = λ pool. none;
  execute = λ command. ok (bulk (text "1"));
  pipeline = λ commands. map (λ c. ok (bulk (text "1"))) commands;
  transaction = λ commands. ok (map (λ c. ok (bulk (text "1"))) commands);
}

abbrev parse_one : Text → Result RedisCommand ParseError
parse_one body = ok get_a

abbrev parse_list : Text → Result (List RedisCommand) ParseError
parse_list body = ok (get_a ∷ set_a ∷ [])

abbrev pub fresh : Server (whole_tokens.F)
fresh = record { limiter = with_max_buckets whole_tokens 10 10; sent = []; forgiven = 0 }

pipeline-Sends_example :
    ((Pipeline.execute whole_tokens digest parse_list cfg redis_says reader none
        (whole (text "[]"))
        5
        fresh).0.sent
      ≡ fresh.sent)
    ⊎ ((body : Text) × (cs : List RedisCommand) × (read_body (whole (text "[]")) ≡ ok body)
        × (parse_list body ≡ ok cs)
        × Sends fresh
            (map normalize (permitted digest reader cs))
            (Pipeline.execute whole_tokens digest parse_list cfg redis_says reader none
              (whole (text "[]"))
              5
              fresh).0)
pipeline-Sends_example =
    pipeline-Sends whole_tokens digest cfg redis_says parse_list reader none (whole (text "[]")) 5
      fresh

transaction-Sends_example :
    ((MultiExec.execute whole_tokens digest parse_list cfg redis_says reader none
        (whole (text "[]"))
        5
        fresh).0.sent
      ≡ fresh.sent)
    ⊎ ((body : Text) × (cs : List RedisCommand) × (read_body (whole (text "[]")) ≡ ok body)
        × (parse_list body ≡ ok cs)
        × All (λ c. check digest reader c ≡ ok tt) cs
        × Sends fresh
            (map normalize cs)
            (MultiExec.execute whole_tokens digest parse_list cfg redis_says reader none
              (whole (text "[]"))
              5
              fresh).0)
transaction-Sends_example =
    transaction-Sends whole_tokens digest cfg redis_says parse_list reader none (whole (text "[]"))
      5 fresh

abbrev replies : List (Result RespValue ExecError)
replies = err (redis (text "ERR")) ∷ []

-- The reader may not write: the second slot is the policy's message.
abbrev refusal : Text
refusal = text "NOPERM this token does not have permission to run 'SET'"

sorted_reads :
    sort_commands digest reader (get_a ∷ set_a ∷ []) ≡ ok (get_a ∷ [], none ∷ some refusal ∷ [])
unfolding sort_commands check check_name check_scripting hard_denied blocks sorts_by_keys
    default_denied admin_allow denied hard_deny scripting default_block read_commands contains
    normalize text_eq to_ascii_uppercase is_empty
sorted_reads = refl

answered_reads :
    respond plain 100 (none ∷ some refusal ∷ []) replies
    ≡ ok (error (text "ERR") ∷ error refusal ∷ [])
unfolding respond
answered_reads = refl

respond-Answers_example :
    Answers digest reader plain
      (get_a ∷ set_a ∷ [])
      replies
      (error (text "ERR") ∷ error refusal ∷ [])
    × (length replies ≡ length (get_a ∷ []))
respond-Answers_example =
    respond-Answers digest reader plain (get_a ∷ set_a ∷ []) (get_a ∷ []) (none ∷ some refusal ∷ [])
      100 replies (error (text "ERR") ∷ error refusal ∷ []) sorted_reads answered_reads

pipeline-charges_example :
    (Pipeline.execute whole_tokens digest parse_list cfg redis_says reader none
      (whole (text "[]"))
      5
      fresh).0.limiter
    ≡ (charge_rate_limit whole_tokens
        (text "reader")
        (pipeline_cost (parse_list (text "[]")))
        5
        fresh).0.limiter
pipeline-charges_example =
    pipeline-charges whole_tokens digest cfg redis_says parse_list reader none (text "[]") 5 fresh
