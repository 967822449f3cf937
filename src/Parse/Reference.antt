-- ===== src/Parse/Reference.antt =====
-- src/http/parse.rs: what a document means, read without a budget, and what it costs.
use srh_rs.Base.{ℕ, zero, suc, ◌+◌, List, [], ◌∷◌, Option, none, some, Text, Result, ok, err}
use srh_rs.Resp.{RedisCommand}
use srh_rs.Parse.Document.{
  Json, Syntax, Elements, Members, null, boolean, integer, real, string, array, object, broken, end,
  cut, element, closed, torn, bad_member, member, Value, Values, Fields, nothing, one,
}
use srh_rs.Parse.{insert_field, json_value_to_bytes}

abbrev pub then_some {ℓ κ} : {A : Type ℓ} {B : Type κ} → Option A → (A → Option B) → Option B
then_some none f = none
then_some (some a) f = f a

abbrev pub to_option {ℓ κ} : {A : Type ℓ} {E : Type κ} → Result A E → Option A
to_option (ok a) = some a
to_option (err e) = none

module _ (json : Json) where
  open json use {F, from_f64, to_string}

  -- The value that a text stands for, if all of it reads.
  unfoldable mutual
    unfolding insert_field

    pub value_of : Syntax F → Option (Value F)
    value_of null = some Value.null
    value_of (boolean b) = some (Value.boolean b)
    value_of (integer n) = some (Value.integer n)
    value_of (real x) = then_some (from_f64 x) λ y. some (Value.real y)
    value_of (string s) = some (Value.string s)
    value_of (array es) = then_some (values_of es) λ vs. some (Value.array vs)
    value_of (object ms) = then_some (fields_of ms Fields.end) λ fs. some (Value.object fs)
    value_of (broken skips) = none

    pub values_of : Elements F → Option (Values F)
    values_of end = some nothing
    values_of cut = none
    values_of (element e es) =
        then_some (value_of e) λ v. then_some (values_of es) λ vs. some (one v vs)

    pub fields_of : Members F → Fields F → Option (Fields F)
    fields_of closed fields = some fields
    fields_of torn fields = none
    fields_of (bad_member skips) fields = none
    fields_of (member key v ms) fields =
        then_some (value_of v) λ w. fields_of ms (insert_field key w fields)

  -- An argument is the shared conversion of its value.
  unfoldable pub argument_of : Syntax F → Option Text
  unfolding value_of
  argument_of s = then_some (value_of s) λ v. to_option (json_value_to_bytes json v)

  unfoldable pub arguments_of : Elements F → Option (List Text)
  unfolding argument_of
  arguments_of end = some []
  arguments_of cut = none
  arguments_of (element e es) =
      then_some (argument_of e) λ a. then_some (arguments_of es) λ as_. some (a ∷ as_)

  -- A command is an array of a name, which is a string, and its arguments.
  abbrev pub name_of : Syntax F → Option Text
  name_of (string s) = some s
  name_of other = none

  unfoldable pub command_of : Syntax F → Option RedisCommand
  unfolding arguments_of
  command_of (array (element e es)) =
      then_some (name_of e)
        λ name. then_some (arguments_of es) λ args. some (record { name = name; args = args })
  command_of other = none

  unfoldable pub commands_of : Elements F → Option (List RedisCommand)
  unfolding command_of
  commands_of end = some []
  commands_of cut = none
  commands_of (element e es) =
      then_some (command_of e) λ c. then_some (commands_of es) λ cs. some (c ∷ cs)

  -- The nodes inside a value: its elements, its keys and its members' values, and theirs.
  unfoldable mutual
    pub inner : Syntax F → ℕ
    inner (array es) = inner_each es
    inner (object ms) = inner_map ms
    inner other = 0

    pub inner_each : Elements F → ℕ
    inner_each end = 0
    inner_each cut = 0
    inner_each (element e es) = 1 + (inner e + inner_each es)

    pub inner_map : Members F → ℕ
    inner_map closed = 0
    inner_map torn = 0
    inner_map (bad_member skips) = 0
    inner_map (member key v ms) = 1 + (1 + (inner v + inner_map ms))

  -- The nodes of the first elements of a list.
  unfoldable pub nodes_within : ℕ → Elements F → ℕ
  unfolding inner
  nodes_within zero es = 0
  nodes_within (suc n) end = 0
  nodes_within (suc n) cut = 0
  nodes_within (suc n) (element e es) = 1 + (inner e + nodes_within n es)
