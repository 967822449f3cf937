-- ===== src/Parse/Tests.antt =====
-- src/http/parse.rs on a small document.
use srh_rs.Base.{◌+◌, ◌≡◌, refl, true, false, [], ◌∷◌, some, text, ok, err, leb, if◌then◌else◌}
use srh_rs.Resp.{RedisCommand, pos}
use srh_rs.Http.Effect.{invalid, pipeline_too_large, request_too_complex}
use srh_rs.Parse.Document.{
  Json, Syntax, Elements, array, object, integer, string, null, end, element, closed, member,
}
use srh_rs.Parse.Reference.{nodes_within, commands_of, command_of}
use srh_rs.Parse.Whole.{pipeline-exact}
use srh_rs.Parse.{pipeline, json_value_to_bytes}

-- [["SET", "k", {"a": null}], ["GET", 7]]
abbrev set_command : Syntax (Unit {0})
set_command = array (
    element (string (text "SET"))
      (element (string (text "k")) (element (object (member (text "a") null closed)) end)))

abbrev two_commands : Elements (Unit {0})
two_commands =
    element set_command
      (element (array (element (string (text "GET")) (element (integer (pos 7)) end))) end)

abbrev pub small : Json
small = record {
  F = Unit {0};
  from_f64 = some;
  show_int = λ n. text "7";
  show_real = λ x. text "0";
  to_string = λ v. some (text "{\"a\":null}");
  read = λ body. (array two_commands, true);
}

abbrev one : Json
one = record {
  F = Unit {0};
  from_f64 = some;
  show_int = λ n. text "7";
  show_real = λ x. text "0";
  to_string = λ v. some (text "{\"a\":null}");
  read = λ body. (set_command, false);
}

abbrev set : RedisCommand
set = record { name = text "SET"; args = text "k" ∷ text "{\"a\":null}" ∷ [] }

abbrev get : RedisCommand
get = record { name = text "GET"; args = text "7" ∷ [] }

within_limits : pipeline small [] 2 10 ≡ ok (set ∷ get ∷ [])
unfolding pipeline
within_limits = refl

too_complex : pipeline small [] 2 9 ≡ err request_too_complex
unfolding pipeline
too_complex = refl

too_many : pipeline small [] 1 10 ≡ err pipeline_too_large
unfolding pipeline
too_many = refl

two_read : commands_of small two_commands ≡ some (set ∷ get ∷ [])
unfolding commands_of json_value_to_bytes
two_read = refl

set_read : command_of one set_command ≡ some set
unfolding command_of json_value_to_bytes
set_read = refl

pipeline-exact_example : pipeline small [] 2 10 ≡ (
    if leb (1 + nodes_within small 2 two_commands) 10
    then (if leb 2 2
        then (if true then ok (set ∷ get ∷ []) else err invalid)
        else err pipeline_too_large)
    else err request_too_complex)
pipeline-exact_example = pipeline-exact small [] two_commands (set ∷ get ∷ []) 2 10 refl two_read
