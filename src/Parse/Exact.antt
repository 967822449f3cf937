-- ===== src/Parse/Exact.antt =====
-- src/http/parse.rs: reading within a budget is reading, and counting.
use srh_rs.Base.{
  ℕ, zero, suc, ◌+◌, ◌-◌, ◌≡◌, refl, sym, ap, subst, ◌∙◌, inl, inr, true, false, List, [], ◌∷◌,
  Option, none, some, Text, text, Result, ok, err, ◌>>=◌, leb, if◌then◌else◌, arith, Result-cases,
}
use srh_rs.Resp.{RedisCommand}
use srh_rs.Parse.Document.{
  Json, Syntax, Elements, Members, null, boolean, integer, real, string, array, object, broken, end,
  cut, element, closed, torn, bad_member, member, Value, Values, Fields, nothing, one,
}
use srh_rs.Parse.{
  Stopped, request_elements, charge, insert_field, visit_value, visit_values, visit_fields,
  json_value_to_bytes, nested, visit_argument, visit_arguments, visit_name, visit_command,
  command_seed, elements,
}
use srh_rs.Parse.Reference.{
  then_some, to_option, value_of, values_of, fields_of, argument_of, arguments_of, name_of,
  command_of, inner, inner_each, inner_map,
}

-- A result, if its cost is within the budget.
unfoldable pub spend : {A : Type 0} → ℕ → ℕ → A → Result (A × ℕ) Stopped
spend budget cost a = if leb cost budget then ok (a, budget - cost) else err (some request_elements)

spend_none : {A : Type 0} (budget : ℕ) (a : A) → ok (a, budget) ≡ spend budget 0 a
unfolding spend
spend_none budget a = ground arith

pub spend_now :
    {A : Type 0} (budget : ℕ) (a b : A) → some a ≡ some b → ok (a, budget) ≡ spend budget 0 b
spend_now budget a b h = spend_none budget a ∙ ap (spend budget 0) (ground arith)

pub spend_map :
    {A B : Type 0} (budget cost : ℕ) (f : A → B) (m : Result (A × ℕ) Stopped) (a : A) (b : B)
    → m ≡ spend budget cost a
    → some (f a) ≡ some b
    → (m >>= λ r. ok (f r.0, r.1)) ≡ spend budget cost b
unfolding spend
spend_map budget cost f m a b h e = rw h (ground (arith, e))

pub charge_then :
    {A : Type 0} (budget cost : ℕ) (a : A) (next : ℕ → Result (A × ℕ) Stopped)
    → ((left : ℕ) → next left ≡ spend left cost a)
    → (charge budget >>= next) ≡ spend budget (1 + cost) a
unfolding charge spend
charge_then zero cost a next h = ground arith
charge_then (suc left) cost a next h = ground (arith, h left)

pub spend_then :
    {A B : Type 0} (budget cost more : ℕ) (m : Result (A × ℕ) Stopped) (a : A) (b : B)
    (next : A × ℕ → Result (B × ℕ) Stopped)
    → m ≡ spend budget cost a
    → ((left : ℕ) → next (a, left) ≡ spend left more b)
    → (m >>= next) ≡ spend budget (cost + more) b
unfolding spend
spend_then budget cost more m a b next e h = rw e (ground (arith, h (budget - cost)))

pub some-inj : {A : Type 0} (a b : A) → some a ≡ some b → a ≡ b
some-inj a b h = ground arith

pub then_some-eq-some :
    {A B : Type 0} (m : Option A) (f : A → Option B) (b : B)
    → then_some m f ≡ some b
    → (a : A) × (m ≡ some a) × (f a ≡ some b)
then_some-eq-some none f b h = absurd (ground arith)
then_some-eq-some (some a) f b h = (a, refl, h)

module _ (json : Json) where
  open json use {F, from_f64, show_int, show_real, to_string}

  mutual
    unfolding visit_value visit_values visit_fields value_of values_of fields_of inner inner_each
        inner_map

    value-spend :
        (s : Syntax F) (v : Value F) (b : ℕ)
        → value_of json s ≡ some v
        → visit_value json s b ≡ spend b (inner json s) v
    value-spend null v b h = spend_now b Value.null v h
    value-spend (boolean x) v b h = spend_now b (Value.boolean x) v h
    value-spend (integer x) v b h = spend_now b (Value.integer x) v h
    value-spend (real x) v b h =
        let (y, finite, made) = then_some-eq-some (from_f64 x) _ v h in
        rw finite (spend_now b (Value.real y) v made)
    value-spend (string x) v b h = spend_now b (Value.string x) v h
    value-spend (array es) v b h =
        let (vs, all, made) = then_some-eq-some (values_of json es) _ v h in
        spend_map b (inner_each json es) (λ x. Value.array x) (visit_values json es b) vs v
          (values-spend es vs b all) made
    value-spend (object ms) v b h =
        let (fs, all, made) = then_some-eq-some (fields_of json ms Fields.end) _ v h in
        spend_map b (inner_map json ms) (λ x. Value.object x) (visit_fields json ms Fields.end b) fs
          v (fields-spend ms Fields.end fs b all) made
    value-spend (broken skips) v b h = absurd (ground arith)

    values-spend :
        (es : Elements F) (vs : Values F) (b : ℕ)
        → values_of json es ≡ some vs
        → visit_values json es b ≡ spend b (inner_each json es) vs
    values-spend end vs b h = spend_now b nothing vs h
    values-spend cut vs b h = absurd (ground arith)
    values-spend (element e es) vs b h =
        let (v, first, h1) = then_some-eq-some (value_of json e) _ vs h in
        let (rest, others, made) = then_some-eq-some (values_of json es) _ vs h1 in
        charge_then b (inner json e + inner_each json es) vs _ (λ left.
          spend_then left (inner json e) (inner_each json es) (visit_value json e left) v vs _
            (value-spend e v left first)
            (λ after.
              spend_map after (inner_each json es) (λ x. one v x) (visit_values json es after) rest
                vs (values-spend es rest after others) made))

    fields-spend :
        (ms : Members F) (acc fs : Fields F) (b : ℕ)
        → fields_of json ms acc ≡ some fs
        → visit_fields json ms acc b ≡ spend b (inner_map json ms) fs
    fields-spend closed acc fs b h = spend_now b acc fs h
    fields-spend torn acc fs b h = absurd (ground arith)
    fields-spend (bad_member skips) acc fs b h = absurd (ground arith)
    fields-spend (member key v ms) acc fs b h =
        let (w, first, h1) = then_some-eq-some (value_of json v) _ fs h in
        charge_then b (1 + (inner json v + inner_map json ms)) fs _ (λ left.
          charge_then left (inner json v + inner_map json ms) fs _ (λ after.
            spend_then after (inner json v) (inner_map json ms) (visit_value json v after) w fs _
              (value-spend v w after first)
              (λ rest. fields-spend ms (insert_field key w acc) fs rest h1)))

  nested-to_bytes :
      (v : Value F) (t : Text)
      → to_option (json_value_to_bytes json v) ≡ some t
      → nested json v ≡ ok t
  unfolding nested
  nested-to_bytes v t h = elim (Result-cases (json_value_to_bytes json v)) [
    | inl (s, e) ↦ ground arith
    | inr (x, e) ↦ absurd (ground arith)
  ]

  nested_then :
      {A : Type 0} (b cost : ℕ) (f : A → Value F) (m : Result (A × ℕ) Stopped) (a : A) (t : Text)
      → m ≡ spend b cost a
      → nested json (f a) ≡ ok t
      → (m >>= λ r. nested json (f r.0) >>= λ t'. ok (t', r.1)) ≡ spend b cost t
  unfolding spend
  nested_then b cost f m a t h e = rw h (ground (arith, e))

  argument-spend :
      (s : Syntax F) (t : Text) (b : ℕ)
      → argument_of json s ≡ some t
      → visit_argument json s b ≡ spend b (inner json s) t
  unfolding argument_of value_of visit_argument inner json_value_to_bytes
  argument-spend null t b h = spend_now b (text "null") t h
  argument-spend (boolean true) t b h = spend_now b (text "true") t h
  argument-spend (boolean false) t b h = spend_now b (text "false") t h
  argument-spend (integer n) t b h = spend_now b (show_int n) t h
  argument-spend (real x) t b h =
      let (v, is, h1) = then_some-eq-some (then_some (from_f64 x) λ y. some (Value.real y)) _ t h in
      let (y, finite, made) = then_some-eq-some (from_f64 x) _ v is in
      rw finite (spend_now b (show_real y) t (ground (arith, h, finite)))
  argument-spend (string s) t b h = spend_now b s t h
  argument-spend (array es) t b h =
      let (v, is, h1) = then_some-eq-some (value_of json (array es)) _ t h in
      let (vs, all, made) = then_some-eq-some (values_of json es) _ v is in
      nested_then b (inner_each json es) (λ x. Value.array x) (visit_values json es b) vs t
        (values-spend es vs b all)
        (nested-to_bytes (Value.array vs) t (
          subst (λ x. to_option (json_value_to_bytes json x) ≡ some t) (some-inj v _ (sym made))
            h1))
  argument-spend (object ms) t b h =
      let (v, is, h1) = then_some-eq-some (value_of json (object ms)) _ t h in
      let (fs, all, made) = then_some-eq-some (fields_of json ms Fields.end) _ v is in
      nested_then b (inner_map json ms) (λ x. Value.object x) (visit_fields json ms Fields.end b) fs
        t (fields-spend ms Fields.end fs b all)
        (nested-to_bytes (Value.object fs) t (
          subst (λ x. to_option (json_value_to_bytes json x) ≡ some t) (some-inj v _ (sym made))
            h1))
  argument-spend (broken skips) t b h = absurd (ground arith)

  arguments-spend :
      (es : Elements F) (ts : List Text) (b : ℕ)
      → arguments_of json es ≡ some ts
      → visit_arguments json es b ≡ spend b (inner_each json es) ts
  unfolding arguments_of visit_arguments inner
  arguments-spend end ts b h = spend_now b [] ts h
  arguments-spend cut ts b h = absurd (ground arith)
  arguments-spend (element e es) ts b h =
      let (a, first, h1) = then_some-eq-some (argument_of json e) _ ts h in
      let (rest, others, made) = then_some-eq-some (arguments_of json es) _ ts h1 in
      charge_then b (inner json e + inner_each json es) ts _ (λ left.
        spend_then left (inner json e) (inner_each json es) (visit_argument json e left) a ts _
          (argument-spend e a left first)
          (λ after.
            spend_map after (inner_each json es) (λ x. a ∷ x) (visit_arguments json es after) rest
              ts (arguments-spend es rest after others) made))

  visit_name-name_of :
      (e : Syntax F) (name : Text) → name_of json e ≡ some name → visit_name json e ≡ ok name
  unfolding visit_name
  visit_name-name_of (string s) name h = ground arith
  visit_name-name_of null name h = absurd (ground arith)
  visit_name-name_of (boolean b) name h = absurd (ground arith)
  visit_name-name_of (integer n) name h = absurd (ground arith)
  visit_name-name_of (real x) name h = absurd (ground arith)
  visit_name-name_of (array es) name h = absurd (ground arith)
  visit_name-name_of (object ms) name h = absurd (ground arith)
  visit_name-name_of (broken skips) name h = absurd (ground arith)

  -- A name has no nodes inside.
  inside :
      (e : Syntax F) (es : Elements F) (name : Text)
      → name_of json e ≡ some name
      → 1 + (1 + inner_each json es) ≡ 1 + inner json (array (element e es))
  unfolding inner
  inside (string s) es name named = omega arith
  inside null es name named = omega arith
  inside (boolean b) es name named = omega arith
  inside (integer n) es name named = omega arith
  inside (real x) es name named = omega arith
  inside (array as_) es name named = absurd (ground arith)
  inside (object ms) es name named = absurd (ground arith)
  inside (broken skips) es name named = omega arith

  pub command-spend :
      (s : Syntax F) (c : RedisCommand) (b : ℕ)
      → command_of json s ≡ some c
      → command_seed json s b ≡ spend b (1 + inner json s) c
  unfolding command_of command_seed visit_command elements
  command-spend (array (element e es)) c b h =
      let (name, named, h1) = then_some-eq-some (name_of json e) _ c h in
      let (args, all, made) = then_some-eq-some (arguments_of json es) _ c h1 in
      charge_then b (1 + inner_each json es) c _ (λ left.
        charge_then left (inner_each json es) c _ (λ after. rw (visit_name-name_of e name named) (
          spend_map after (inner_each json es) (λ x. record { name = name; args = x })
            (visit_arguments json es after) args c (arguments-spend es args after all) made)))
      ∙ ap (λ n. spend b n c) (inside e es name named)
  command-spend null c b h = absurd (ground arith)
  command-spend (boolean x) c b h = absurd (ground arith)
  command-spend (integer x) c b h = absurd (ground arith)
  command-spend (real x) c b h = absurd (ground arith)
  command-spend (string x) c b h = absurd (ground arith)
  command-spend (object ms) c b h = absurd (ground arith)
  command-spend (array end) c b h = absurd (ground arith)
  command-spend (array cut) c b h = absurd (ground arith)
  command-spend (broken skips) c b h = absurd (ground arith)
