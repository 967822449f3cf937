-- ===== src/Fred/Client.antt =====
-- src/adapters/fred_executor.rs: commands and transactions over one client. What the client answers
-- is a parameter, a function of all that was sent before; a request that is dropped before its
-- answer is not followed further.
use srh_rs.Base.{
  ℕ, ◌+◌, Bool, true, false, ◌&&◌, ◌||◌, not, List, [], ◌∷◌, ◌++◌, Option, none, some, Text, text,
  text_eq, Result, ok, err, map, leb, ◌==◌, if◌then◌else◌,
}
use srh_rs.Resp.{RespValue, simple, ExecError, transport, timeout, redis, RedisCommand}
use srh_rs.Convert.{max_depth}
use srh_rs.Fred.{
  Frame, Frames, array, null, end, frame, fred_frame_to_resp, frame_within_depth,
  protocol_violation,
}

-- `char::is_whitespace` for one byte, and for the last of two and of three.
abbrev white : ℕ → Bool
white a = a == 32 || leb 9 a && leb a 13

abbrev white_two : ℕ → ℕ → Bool
white_two a b = a == 0xc2 && (b == 0x85 || b == 0xa0)

abbrev white_three : ℕ → ℕ → ℕ → Bool
white_three a b c =
    a == 0xe1 && b == 0x9a && c == 0x80
    || a == 0xe2 && b == 0x80 && (leb 0x80 c && leb c 0x8a || c == 0xa8 || c == 0xa9 || c == 0xaf)
    || a == 0xe2 && b == 0x81 && c == 0x9f
    || a == 0xe3 && b == 0x80 && c == 0x80

-- Whether a text is over or a white space comes next.
abbrev ends_word : Text → Bool
ends_word [] = true
ends_word (a ∷ []) = white a
ends_word (a ∷ b ∷ []) = white a || white_two a b
ends_word (a ∷ b ∷ c ∷ rest) = white a || white_two a b || white_three a b c

abbrev is_upper_word : ℕ → Bool
is_upper_word a = leb b'A' a && leb a b'Z' || leb b'0' a && leb a b'9' || a == b'_'

-- The rest of the first word.
upper_rest : Text → Bool
upper_rest [] = true
upper_rest (a ∷ rest) =
    let later = upper_rest rest in if ends_word (a ∷ rest) then true else is_upper_word a && later

-- White space is skipped, up to the first word.
unfoldable pub is_redis_error : Text → Bool
unfolding upper_rest
is_redis_error [] = false
is_redis_error (a ∷ []) = is_upper_word a
is_redis_error (a ∷ b ∷ []) =
    let next = is_redis_error (b ∷ []) in
    if white a
    then next
    else if white_two a b
    then false
    else is_upper_word a && upper_rest (b ∷ [])
is_redis_error (a ∷ b ∷ c ∷ rest) =
    let after_one = is_redis_error (b ∷ c ∷ rest) in
    let after_two = is_redis_error (c ∷ rest) in
    let after_three = is_redis_error rest in
    if white a
    then after_one
    else if white_two a b
    then after_two
    else if white_three a b c
    then after_three
    else is_upper_word a && upper_rest (b ∷ c ∷ rest)

-- An error of the client, with whether the client is connected when it has come.
pub record ClientError : Type 0 where
  pub details : Text
  pub is_timeout : Bool
  pub display : Text
  pub is_connected : Bool

unfoldable pub map_fred_error : ClientError → ExecError
unfolding is_redis_error
map_fred_error e =
    if is_redis_error e.details
    then redis e.details
    else if e.is_timeout
    then timeout
    else transport e.display

-- Where a command is sent in a cluster.
pub data Routing : Type 0 where
  by_first_key : Routing
  by_slot_of : Text → Routing

pub record Sent : Type 0 where
  pub name : Text
  pub args : List Text
  pub routing : Routing

-- The executor, with all that it has sent and how often it has reset the connection.
pub record FredExecutor : Type 0 where
  pub sent : List Sent
  pub resets : ℕ
  pub reset_started : Bool

abbrev pub send : FredExecutor → Sent → FredExecutor
send x s = record x { sent = x.sent ++ (s ∷ []) }

abbrev is_exec_timeout : ExecError → Bool
is_exec_timeout timeout = true
is_exec_timeout other = false

-- `map_error`: the first timeout on a connected client resets the connection.
unfoldable pub map_error : FredExecutor → ClientError → FredExecutor × ExecError
unfolding map_fred_error
map_error x e =
    let mapped = map_fred_error e in
    if is_exec_timeout mapped && e.is_connected && not x.reset_started
    then (record x { resets = x.resets + 1; reset_started = true }, mapped)
    else (x, mapped)

unfoldable pub mapped :
    {A : Type 0} → FredExecutor → Result A ClientError → FredExecutor × Result A ExecError
unfolding map_error
mapped x (ok a) = (x, ok a)
mapped x (err e) = let (x', mapped') = map_error x e in (x', err mapped')

-- The key that gives the slot of a transaction.
unfoldable pub first_key : List RedisCommand → Option Text
first_key [] = none
first_key (c ∷ cs) = elim c.args [ [] ↦ first_key cs | key ∷ _ ↦ some key ]

unfoldable pub hash_of : List RedisCommand → Routing
unfolding first_key
hash_of cs = elim (first_key cs) [ none ↦ by_first_key | some key ↦ by_slot_of key ]

abbrev pub as_sent : Routing → RedisCommand → Sent
as_sent hash c = record { name = c.name; args = c.args; routing = hash }

abbrev pub control : Routing → Text → Sent
control hash name = record { name = name; args = []; routing = hash }

unfoldable pub frames : Frames → List Frame
frames end = []
frames (frame f fs) = f ∷ frames fs

module _ (show_debug : RespValue → Text)
    (answer : FredExecutor → Sent → Result Frame ClientError) where
  unfoldable pub raw : FredExecutor → Sent → FredExecutor × Result Frame ExecError
  unfolding mapped
  raw x s = mapped (send x s) (answer x s)

  abbrev pub replied :
      FredExecutor × Result Frame ExecError → FredExecutor × Result RespValue ExecError
  replied (x, ok f) = (x, fred_frame_to_resp f)
  replied (x, err e) = (x, err e)

  -- `execute`, under the operation lock.
  unfoldable pub execute : FredExecutor → RedisCommand → FredExecutor × Result RespValue ExecError
  unfolding raw fred_frame_to_resp
  execute x c = replied (raw x (as_sent by_first_key c))

  -- `pipeline`: all commands are sent in their order before an answer is taken. The answers are taken
  -- in that order too.
  unfoldable pub send_all :
      FredExecutor → List RedisCommand → FredExecutor × List (Result Frame ClientError)
  send_all x [] = (x, [])
  send_all x (c ∷ cs) =
      let s = as_sent by_first_key c in
      let (x', answers) = send_all (send x s) cs in (x', answer x s ∷ answers)

  unfoldable pub take_all :
      FredExecutor
      → List (Result Frame ClientError)
      → FredExecutor × List (Result RespValue ExecError)
  unfolding mapped fred_frame_to_resp
  take_all x [] = (x, [])
  take_all x (a ∷ answers) =
      let (x', r) = replied (mapped x a) in let (x'', rs) = take_all x' answers in (x'', r ∷ rs)

  unfoldable pub pipeline :
      FredExecutor → List RedisCommand → FredExecutor × List (Result RespValue ExecError)
  unfolding send_all take_all
  pipeline x cs = let (x', answers) = send_all x cs in take_all x' answers

  -- The answer to `EXEC`.
  unfoldable pub exec_reply : Frame → Result (List (Result RespValue ExecError)) ExecError
  unfolding frames frame_within_depth fred_frame_to_resp protocol_violation
  exec_reply (array fs) = ok (map (λ f. frame_within_depth f max_depth) (frames fs))
  exec_reply null = err (redis (text "EXECABORT Transaction discarded because of previous errors."))
  exec_reply f = elim (fred_frame_to_resp f) [
    | err e ↦ err e
    | ok _ ↦ err (protocol_violation (text "EXEC returned a non-array response"))
  ]

  abbrev pub Outcome : Type 0
  Outcome = FredExecutor × Result (List (Result RespValue ExecError)) ExecError

  unfoldable pub exec : FredExecutor × Result Frame ExecError → Outcome
  unfolding exec_reply
  exec (x, ok f) = (x, exec_reply f)
  exec (x, err e) = (x, err e)

  -- `DISCARD`, whose answer does not matter.
  unfoldable pub discard : FredExecutor → Routing → ExecError → Outcome
  unfolding raw
  discard x hash e = ((raw x (control hash (text "DISCARD"))).0, err e)

  unfoldable pub is_status : Text → RespValue → Bool
  unfolding text_eq
  is_status status (simple response) = text_eq response status
  is_status status other = false

  -- What the answer to a command in a transaction lacks, if it is not `QUEUED`.
  unfoldable pub not_queued : Result RespValue ExecError → Option ExecError
  unfolding is_status protocol_violation
  not_queued (err e) = some e
  not_queued (ok response) =
      if is_status (text "QUEUED") response
      then none
      else some (
          protocol_violation (
            text "transaction command returned "
            ++ (show_debug response ++ text " instead of QUEUED")))

  unfoldable pub queue : Routing → FredExecutor → List RedisCommand → Outcome
  unfolding exec
  queue hash x [] = exec (raw x (control hash (text "EXEC")))
  queue hash x (c ∷ cs) =
      let (x', r) = replied (raw x (as_sent hash c)) in
      let rest = queue hash x' cs in
      elim (not_queued r) [ none ↦ rest | some e ↦ discard x' hash e ]

  -- What the answer to `MULTI` lacks, if it is not `OK`.
  unfoldable pub not_opened : Result RespValue ExecError → Option ExecError
  unfolding is_status protocol_violation
  not_opened (err e) = some e
  not_opened (ok response) =
      if is_status (text "OK") response
      then none
      else some (protocol_violation (text "MULTI returned " ++ show_debug response))

  unfoldable pub transaction : FredExecutor → List RedisCommand → Outcome
  transaction x [] = (x, ok [])
  transaction x (c ∷ cs) =
      let hash = hash_of (c ∷ cs) in
      let (x', r) = replied (raw x (control hash (text "MULTI"))) in
      elim (not_opened r) [ none ↦ queue hash x' (c ∷ cs) | some e ↦ (x', err e) ]
