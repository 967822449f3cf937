-- ===== src/Parse/Whole.antt =====
-- src/http/parse.rs: a body that reads is parsed exactly, within the limits.
use srh_rs.Base.{
  ℕ, zero, suc, ◌+◌, ◌-◌, ◌≡◌, refl, ap, ◌≢◌, ◌∙◌, inl, inr, true, List, [], ◌∷◌, some, Text,
  Result, ok, err, ◌>>=◌, leb, if◌then◌else◌, length, arith, Bool-cases,
}
use srh_rs.Resp.{RedisCommand}
use srh_rs.Http.Effect.{invalid, pipeline_too_large, request_too_complex}
use srh_rs.Parse.Document.{
  Json, Syntax, Elements, Members, null, boolean, integer, real, string, array, object, broken, end,
  cut, element, closed, torn, bad_member, member, Value, Values, Fields,
}
use srh_rs.Parse.{
  Stopped, pipeline_commands, request_elements, charge, insert_field, visit_pipeline, pipeline_seed,
  command, pipeline, classify, is_whole, is_whole_list, is_whole_map, no_more, elements, finish,
}
use srh_rs.Parse.Reference.{
  value_of, values_of, fields_of, argument_of, arguments_of, name_of, command_of, commands_of,
  inner, nodes_within,
}
use srh_rs.Parse.Exact.{spend, then_some-eq-some, command-spend, some-inj}

module _ (json : Json) where
  open json use {F}

  mutual
    unfolding value_of values_of fields_of is_whole is_whole_list is_whole_map

    value-whole : (s : Syntax F) (v : Value F) → value_of json s ≡ some v → is_whole json s ≡ true
    value-whole null v h = refl
    value-whole (boolean x) v h = refl
    value-whole (integer x) v h = refl
    value-whole (real x) v h = refl
    value-whole (string x) v h = refl
    value-whole (array es) v h =
        let (vs, all, made) = then_some-eq-some (values_of json es) _ v h in values-whole es vs all
    value-whole (object ms) v h =
        let (fs, all, made) = then_some-eq-some (fields_of json ms Fields.end) _ v h in
        fields-whole ms Fields.end fs all
    value-whole (broken skips) v h = absurd (ground arith)

    values-whole :
        (es : Elements F) (vs : Values F)
        → values_of json es ≡ some vs
        → is_whole_list json es ≡ true
    values-whole end vs h = refl
    values-whole cut vs h = absurd (ground arith)
    values-whole (element e es) vs h =
        let (v, first, h1) = then_some-eq-some (value_of json e) _ vs h in
        let (rest, others, made) = then_some-eq-some (values_of json es) _ vs h1 in
        rw (value-whole e v first) (values-whole es rest others)

    fields-whole :
        (ms : Members F) (acc fs : Fields F)
        → fields_of json ms acc ≡ some fs
        → is_whole_map json ms ≡ true
    fields-whole closed acc fs h = refl
    fields-whole torn acc fs h = absurd (ground arith)
    fields-whole (bad_member skips) acc fs h = absurd (ground arith)
    fields-whole (member key v ms) acc fs h =
        let (w, first, h1) = then_some-eq-some (value_of json v) _ fs h in
        rw (value-whole v w first) (fields-whole ms (insert_field key w acc) fs h1)

  arguments-whole :
      (es : Elements F) (ts : List Text)
      → arguments_of json es ≡ some ts
      → is_whole_list json es ≡ true
  unfolding arguments_of argument_of is_whole
  arguments-whole end ts h = refl
  arguments-whole cut ts h = absurd (ground arith)
  arguments-whole (element e es) ts h =
      let (a, first, h1) = then_some-eq-some (argument_of json e) _ ts h in
      let (v, is, h2) = then_some-eq-some (value_of json e) _ a first in
      let (rest, others, made) = then_some-eq-some (arguments_of json es) _ ts h1 in
      rw (value-whole e v is) (arguments-whole es rest others)

  name-whole : (e : Syntax F) (name : Text) → name_of json e ≡ some name → is_whole json e ≡ true
  unfolding is_whole
  name-whole (string s) name h = refl
  name-whole null name h = refl
  name-whole (boolean b) name h = refl
  name-whole (integer n) name h = refl
  name-whole (real x) name h = refl
  name-whole (array es) name h = absurd (ground arith)
  name-whole (object ms) name h = absurd (ground arith)
  name-whole (broken skips) name h = absurd (ground arith)

  command-whole :
      (s : Syntax F) (c : RedisCommand) → command_of json s ≡ some c → is_whole json s ≡ true
  unfolding command_of is_whole
  command-whole (array (element e es)) c h =
      let (name, named, h1) = then_some-eq-some (name_of json e) _ c h in
      let (args, all, made) = then_some-eq-some (arguments_of json es) _ c h1 in
      rw (name-whole e name named) (arguments-whole es args all)
  command-whole null c h = refl
  command-whole (boolean x) c h = refl
  command-whole (integer x) c h = refl
  command-whole (real x) c h = refl
  command-whole (string x) c h = refl
  command-whole (object ms) c h = absurd (ground arith)
  command-whole (array end) c h = refl
  command-whole (array cut) c h = absurd (ground arith)
  command-whole (broken skips) c h = absurd (ground arith)

  -- After the commands that there may be, what stands next is of no matter if it reads.
  no_more-commands :
      (es : Elements F) (cs : List RedisCommand)
      → commands_of json es ≡ some cs
      → no_more json es ≡ (if leb (length cs) 0 then ok tt else err (some pipeline_commands))
  unfolding commands_of no_more
  no_more-commands end cs h = ground arith
  no_more-commands cut cs h = absurd (ground arith)
  no_more-commands (element e es) cs h =
      let (c, first, h1) = then_some-eq-some (command_of json e) _ cs h in
      let (rest, others, made) = then_some-eq-some (commands_of json es) _ cs h1 in
      ground (arith, command-whole e c first)

  -- What a pipeline comes to.
  abbrev within : ℕ → ℕ → ℕ → List RedisCommand → Result (List RedisCommand × ℕ) Stopped
  within room cost budget cs =
      if leb cost budget
      then (if leb (length cs) room then ok (cs, budget - cost) else err (some pipeline_commands))
      else err (some request_elements)

  step :
      (room k n b : ℕ) (c : RedisCommand) (rest : List RedisCommand)
      (next : ℕ → Result (List RedisCommand × ℕ) Stopped)
      → next (b - k) ≡ within room n (b - k) rest
      → (spend b k c >>= λ x. next x.1 >>= λ r. ok (x.0 ∷ r.0, r.1))
        ≡ within (suc room) (k + n) b (c ∷ rest)
  unfolding spend
  step room k n b c rest next h = elim (Bool-cases (leb k b)) [
    | inr over ↦ rw over (ground arith)
    | inl fits ↦ rw (fits, h) (ground arith)
  ]

  end-commands : (cs : List RedisCommand) → commands_of json end ≡ some cs → [] ≡ cs
  unfolding commands_of
  end-commands cs h = some-inj [] cs h

  cut-commands : (cs : List RedisCommand) → commands_of json cut ≢ some cs
  unfolding commands_of
  cut-commands cs h = ground arith

  element-commands :
      (e : Syntax F) (es : Elements F) (cs : List RedisCommand)
      → commands_of json (element e es) ≡ some cs
      → (c : RedisCommand) × (rest : List RedisCommand) × (command_of json e ≡ some c)
        × (commands_of json es ≡ some rest)
        × (c ∷ rest ≡ cs)
  unfolding commands_of
  element-commands e es cs h =
      let (c, first, h1) = then_some-eq-some (command_of json e) _ cs h in
      let (rest, others, made) = then_some-eq-some (commands_of json es) _ cs h1 in
      (c, rest, first, others, some-inj (c ∷ rest) cs made)

  pipeline-within :
      (room : ℕ) (es : Elements F) (cs : List RedisCommand) (b : ℕ)
      → commands_of json es ≡ some cs
      → visit_pipeline json room es b ≡ within room (nodes_within json room es) b cs
  unfolding visit_pipeline nodes_within
  pipeline-within zero es [] b h = rw (no_more-commands es [] h) (ground arith)
  pipeline-within zero es (c ∷ cs) b h = rw (no_more-commands es (c ∷ cs) h) (ground arith)
  pipeline-within (suc room) end cs b h = rw (← end-commands cs h) (ground arith)
  pipeline-within (suc room) cut cs b h = absurd (cut-commands cs h)
  pipeline-within (suc room) (element e es) cs b h =
      let (c, rest, first, others, made) = element-commands e es cs h in
      let ih = pipeline-within room es rest (b - (1 + inner json e)) others in
      rw (command-spend json e c b first) (
        step room (1 + inner json e) (nodes_within json room es) b c rest
          (visit_pipeline json room es) ih
        ∙ ap (λ n. within (suc room) n b (c ∷ rest)) (omega arith)
        ∙ ap (within (suc room) (1 + (inner json e + nodes_within json room es)) b) made)

  -- A body that reads as an array of commands is parsed exactly: to its commands, if it has no more
  -- nodes than the limit (its own array, the commands, their names and arguments, and all keys and
  -- values nested in these, of as many commands as there may be) and no more commands than their
  -- limit. The first limit that is passed names the error. Text after the array is an error.
  pub pipeline-exact :
      (body : Text) (es : Elements F) (cs : List RedisCommand) (max_commands max_elements : ℕ)
      → (json.read body).0 ≡ array es
      → commands_of json es ≡ some cs
      → pipeline json body max_commands max_elements ≡ (
          if leb (1 + nodes_within json max_commands es) max_elements
          then (if leb (length cs) max_commands
              then (if (json.read body).1 then ok cs else err invalid)
              else err pipeline_too_large)
          else err request_too_complex)
  unfolding pipeline pipeline_seed elements charge classify finish
  pipeline-exact body es cs max_commands zero is all = ground arith
  pipeline-exact body es cs max_commands (suc left) is all =
      rw is (ground (arith, pipeline-within max_commands es cs left all))

  -- A body that reads as a command is parsed to it if it has no more nodes than the limit, and no
  -- text follows it: with more nodes it is too complex, and with more text invalid.
  pub command-exact :
      (body : Text) (c : RedisCommand) (max_elements : ℕ)
      → command_of json (json.read body).0 ≡ some c
      → command json body max_elements ≡ (
          if leb (1 + inner json (json.read body).0) max_elements
          then (if (json.read body).1 then ok c else err invalid)
          else err request_too_complex)
  unfolding command classify finish spend
  command-exact body c max_elements is =
      rw (command-spend json (json.read body).0 c max_elements is) (ground arith)
