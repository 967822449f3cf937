-- ===== src/Parse.antt =====
-- src/http/parse.rs, and `json_value_to_bytes` of src/domain/convert.rs: from a JSON body to
-- commands, within a budget of nodes. `serde_json` is a parameter: how it reads a body, which is a
-- value whose reading may break off at any place, and how it writes numbers and values. A value
-- that `Cell`s share is passed on; the cell of the limit that was exceeded is set only just before
-- an error, and is the error here.
pub mod Document
pub mod Reference
pub mod Exact
pub mod Whole
pub mod Bounds
pub mod Tests
use srh_rs.Base.{
  ℕ, zero, suc, Bool, true, false, List, [], ◌∷◌, Option, none, some, Text, text, text_eq, Result,
  ok, err, ◌>>=◌, ok_or, map_err, if◌then◌else◌,
}
use srh_rs.Resp.{ℤ, RedisCommand}
use srh_rs.Convert.{ConversionError, invalid_command}
use srh_rs.Http.Effect.{ParseError, invalid, pipeline_too_large, request_too_complex}
use Document.{
  Json, Syntax, Elements, Members, null, boolean, integer, real, string, array, object, broken, end,
  cut, element, closed, torn, bad_member, member, Value, Values, Fields, nothing, one, field,
}

pub data LimitExceeded : Type 0 where
  pipeline_commands request_elements : LimitExceeded

-- Why a deserializer stopped: a limit, or anything else.
abbrev pub Stopped : Type 0
Stopped = Option LimitExceeded

unfoldable pub classify : Stopped → ParseError
classify (some pipeline_commands) = pipeline_too_large
classify (some request_elements) = request_too_complex
classify none = invalid

unfoldable pub charge : ℕ → Result ℕ Stopped
charge zero = err (some request_elements)
charge (suc left) = ok left

-- `Map::insert` of an object, whose first entry of a key keeps its place.
unfoldable pub insert_field : {F : Type 0} → Text → Value F → Fields F → Fields F
insert_field key value Fields.end = field key value Fields.end
insert_field key value (field key' value' rest) =
    let rest' = insert_field key value rest in
    if text_eq key key' then field key value rest else field key' value' rest'

module _ (json : Json) where
  open json use {F, from_f64, show_int, show_real, to_string}

  unfoldable mutual
    unfolding charge insert_field

    -- `ValueVisitor`, with what is left of the budget; before it `ValueSeed` charges for the value.
    pub visit_value : Syntax F → ℕ → Result (Value F × ℕ) Stopped
    visit_value null left = ok (Value.null, left)
    visit_value (boolean b) left = ok (Value.boolean b, left)
    visit_value (integer n) left = ok (Value.integer n, left)
    visit_value (real x) left = ok_or (from_f64 x) none >>= λ y. ok (Value.real y, left)
    visit_value (string s) left = ok (Value.string s, left)
    visit_value (array es) left = visit_values es left >>= λ r. ok (Value.array r.0, r.1)
    visit_value (object ms) left =
        visit_fields ms Fields.end left >>= λ r. ok (Value.object r.0, r.1)
    visit_value (broken skips) left = err none

    pub visit_values : Elements F → ℕ → Result (Values F × ℕ) Stopped
    visit_values end left = ok (nothing, left)
    visit_values cut left = err none
    visit_values (element e es) left = charge left >>= λ after.
        visit_value e after >>= λ v. visit_values es v.1 >>= λ r. ok (one v.0 r.0, r.1)

    -- `KeySeed`, then the value, for each member.
    pub visit_fields : Members F → Fields F → ℕ → Result (Fields F × ℕ) Stopped
    visit_fields closed fields left = ok (fields, left)
    visit_fields torn fields left = err none
    visit_fields (bad_member skips) fields left = charge left >>= λ after. err none
    visit_fields (member key v ms) fields left = charge left >>= λ after. charge after >>= λ rest.
        visit_value v rest >>= λ r. visit_fields ms (insert_field key r.0 fields) r.1

  -- `json_value_to_bytes`.
  unfoldable pub json_value_to_bytes : Value F → Result Text ConversionError
  json_value_to_bytes (Value.string s) = ok s
  json_value_to_bytes (Value.integer n) = ok (show_int n)
  json_value_to_bytes (Value.real x) = ok (show_real x)
  json_value_to_bytes (Value.boolean true) = ok (text "true")
  json_value_to_bytes (Value.boolean false) = ok (text "false")
  json_value_to_bytes Value.null = ok (text "null")
  json_value_to_bytes (Value.array vs) = ok_or (to_string (Value.array vs)) invalid_command
  json_value_to_bytes (Value.object fs) = ok_or (to_string (Value.object fs)) invalid_command

  unfoldable pub nested : Value F → Result Text Stopped
  unfolding json_value_to_bytes
  nested v = map_err (λ e. none) (json_value_to_bytes v)

  -- `ArgumentVisitor`.
  unfoldable pub visit_argument : Syntax F → ℕ → Result (Text × ℕ) Stopped
  unfolding visit_value nested
  visit_argument null left = ok (text "null", left)
  visit_argument (boolean true) left = ok (text "true", left)
  visit_argument (boolean false) left = ok (text "false", left)
  visit_argument (integer n) left = ok (show_int n, left)
  visit_argument (real x) left = ok_or (from_f64 x) none >>= λ y. ok (show_real y, left)
  visit_argument (string s) left = ok (s, left)
  visit_argument (array es) left =
      visit_values es left >>= λ r. nested (Value.array r.0) >>= λ t. ok (t, r.1)
  visit_argument (object ms) left =
      visit_fields ms Fields.end left >>= λ r. nested (Value.object r.0) >>= λ t. ok (t, r.1)
  visit_argument (broken skips) left = err none

  -- `ArgumentSeed`, for each element that is left.
  unfoldable pub visit_arguments : Elements F → ℕ → Result (List Text × ℕ) Stopped
  unfolding visit_argument charge
  visit_arguments end left = ok ([], left)
  visit_arguments cut left = err none
  visit_arguments (element e es) left = charge left >>= λ after.
      visit_argument e after >>= λ a. visit_arguments es a.1 >>= λ r. ok (a.0 ∷ r.0, r.1)

  -- `NameSeed`: `String::deserialize` takes a string only.
  unfoldable pub visit_name : Syntax F → Result Text Stopped
  visit_name (string s) = ok s
  visit_name other = err none

  -- `CommandVisitor`.
  unfoldable pub visit_command : Elements F → ℕ → Result (RedisCommand × ℕ) Stopped
  unfolding visit_name visit_arguments charge
  visit_command end left = err none
  visit_command cut left = err none
  visit_command (element e es) left = charge left >>= λ after. visit_name e >>= λ name.
      visit_arguments es after >>= λ r. ok (record { name = name; args = r.0 }, r.1)

  -- The elements of a sequence; any other value is a type error.
  elements : Syntax F → Result (Elements F) Stopped
  elements (array es) = ok es
  elements other = err none

  -- `CommandSeed`.
  unfoldable pub command_seed : Syntax F → ℕ → Result (RedisCommand × ℕ) Stopped
  unfolding visit_command elements charge
  command_seed s budget = charge budget >>= λ left. elements s >>= λ es. visit_command es left

  -- Whether a value reads to its end, as `IgnoredAny` wants it.
  unfoldable mutual
    pub is_whole : Syntax F → Bool
    is_whole (broken skips) = skips
    is_whole (array es) = is_whole_list es
    is_whole (object ms) = is_whole_map ms
    is_whole other = true

    pub is_whole_list : Elements F → Bool
    is_whole_list end = true
    is_whole_list cut = false
    is_whole_list (element e es) = if is_whole e then is_whole_list es else false

    pub is_whole_map : Members F → Bool
    is_whole_map closed = true
    is_whole_map torn = false
    is_whole_map (bad_member skips) = skips
    is_whole_map (member key v ms) = if is_whole v then is_whole_map ms else false

  -- After as many commands as there may be.
  unfoldable pub no_more : Elements F → Result (Unit {0}) Stopped
  unfolding is_whole
  no_more end = ok tt
  no_more cut = err none
  no_more (element e es) = if is_whole e then err (some pipeline_commands) else err none

  -- `PipelineVisitor`.
  unfoldable pub visit_pipeline : ℕ → Elements F → ℕ → Result (List RedisCommand × ℕ) Stopped
  unfolding command_seed no_more
  visit_pipeline zero es left = no_more es >>= λ u. ok ([], left)
  visit_pipeline (suc room) end left = ok ([], left)
  visit_pipeline (suc room) cut left = err none
  visit_pipeline (suc room) (element e es) left =
      command_seed e left >>= λ c. visit_pipeline room es c.1 >>= λ r. ok (c.0 ∷ r.0, r.1)

  -- `PipelineSeed`.
  unfoldable pub pipeline_seed : ℕ → Syntax F → ℕ → Result (List RedisCommand × ℕ) Stopped
  unfolding visit_pipeline elements charge
  pipeline_seed max_commands s budget =
      charge budget >>= λ left. elements s >>= λ es. visit_pipeline max_commands es left

  -- `deserializer.end()`, after the value.
  finish : {A : Type 0} → Bool → A × ℕ → Result A ParseError
  finish true r = ok r.0
  finish false r = err invalid

  unfoldable pub command : Text → ℕ → Result RedisCommand ParseError
  unfolding command_seed classify finish
  command body max_request_elements =
      map_err classify (command_seed (json.read body).0 max_request_elements)
      >>= finish (json.read body).1

  unfoldable pub pipeline : Text → ℕ → ℕ → Result (List RedisCommand) ParseError
  unfolding pipeline_seed classify finish
  pipeline body max_commands max_request_elements =
      map_err classify (pipeline_seed max_commands (json.read body).0 max_request_elements)
      >>= finish (json.read body).1
