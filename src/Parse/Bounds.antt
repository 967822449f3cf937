-- ===== src/Parse/Bounds.antt =====
-- src/http/parse.rs: whatever the body, what is parsed from it is within the limits.
use srh_rs.Base.{
  ℕ, zero, suc, ◌+◌, ◌≤◌, ◌≡◌, ap, true, false, List, [], ◌∷◌, none, Text, Result, ok, err, ◌>>=◌,
  >>=-eq-ok, ok_or, map_err, map_err-eq-ok, length, arith, Bool,
}
use srh_rs.Resp.{RedisCommand}
use srh_rs.Parse.Document.{
  Json, Syntax, Elements, Members, null, boolean, integer, real, string, array, object, broken, end,
  cut, element, closed, torn, bad_member, member, Value, Values, Fields,
}
use srh_rs.Parse.{
  Stopped, charge, insert_field, visit_value, visit_values, visit_fields, nested, visit_argument,
  visit_arguments, visit_name, visit_command, command_seed, visit_pipeline, pipeline_seed, pipeline,
  no_more, elements, classify, finish,
}

charge-eq-ok : (b left : ℕ) → charge b ≡ ok left → left + 1 ≡ b
unfolding charge
charge-eq-ok zero left h = absurd (ground arith)
charge-eq-ok (suc b) left h = ground arith

-- What a step leaves is that of its last part.
left_of :
    {A B : Type 0} (r : Result (A × ℕ) Stopped) (f : A → B) (b : B) (left : ℕ)
    → ◌>>=◌ {U = B × ℕ} r (λ x. ok (f x.0, x.1)) ≡ ok (b, left)
    → (a : A) × (r ≡ ok (a, left)) × (f a ≡ b)
left_of (ok (a, n)) f b left h = (a, ground arith, ground arith)
left_of (err e) f b left h = absurd (ground arith)

ap_left :
    (t u : Text) (n left : ℕ)
    → ◌≡◌ {A = Result (Text × ℕ) Stopped} (ok (u, n)) (ok (t, left))
    → n ≡ left
ap_left t u n left h = ground arith

module _ (json : Json) where
  open json use {F, from_f64}

  mutual
    unfolding visit_value visit_values visit_fields

    value-le :
        (s : Syntax F) (b : ℕ) (v : Value F) (left : ℕ)
        → visit_value json s b ≡ ok (v, left)
        → left ≤ b
    value-le null b v left h = ground arith
    value-le (boolean x) b v left h = ground arith
    value-le (integer x) b v left h = ground arith
    value-le (real x) b v left h =
        let (y, finite, made) = >>=-eq-ok (ok_or (from_f64 x) none) _ h in ground (arith, made)
    value-le (string x) b v left h = ground arith
    value-le (array es) b v left h =
        let (vs, all, made) = left_of (visit_values json es b) _ v left h in
        values-le es b vs left all
    value-le (object ms) b v left h =
        let (fs, all, made) = left_of (visit_fields json ms Fields.end b) _ v left h in
        fields-le ms Fields.end b fs left all
    value-le (broken skips) b v left h = absurd (ground arith)

    values-le :
        (es : Elements F) (b : ℕ) (vs : Values F) (left : ℕ)
        → visit_values json es b ≡ ok (vs, left)
        → left ≤ b
    values-le end b vs left h = ground arith
    values-le cut b vs left h = absurd (ground arith)
    values-le (element e es) b vs left h =
        let (after, paid, h1) = >>=-eq-ok (charge b) _ h in
        let ((v, rest), first, h2) = >>=-eq-ok (visit_value json e after) _ h1 in
        let (ws, others, made) = left_of (visit_values json es rest) _ vs left h2 in
        omega (
          arith,
          charge-eq-ok b after paid,
          value-le e after v rest first,
          values-le es rest ws left others,
        )

    fields-le :
        (ms : Members F) (acc : Fields F) (b : ℕ) (fs : Fields F) (left : ℕ)
        → visit_fields json ms acc b ≡ ok (fs, left)
        → left ≤ b
    fields-le closed acc b fs left h = ground arith
    fields-le torn acc b fs left h = absurd (ground arith)
    fields-le (bad_member skips) acc b fs left h =
        let (after, paid, h1) = >>=-eq-ok (charge b) _ h in absurd (ground (arith, h1))
    fields-le (member key v ms) acc b fs left h =
        let (after, paid, h1) = >>=-eq-ok (charge b) _ h in
        let (rest, paid', h2) = >>=-eq-ok (charge after) _ h1 in
        let ((w, last), first, h3) = >>=-eq-ok (visit_value json v rest) _ h2 in
        omega (
          arith,
          charge-eq-ok b after paid,
          charge-eq-ok after rest paid',
          value-le v rest w last first,
          fields-le ms (insert_field key w acc) last fs left h3,
        )

  argument-le :
      (s : Syntax F) (b : ℕ) (t : Text) (left : ℕ)
      → visit_argument json s b ≡ ok (t, left)
      → left ≤ b
  unfolding visit_argument
  argument-le null b t left h = ground arith
  argument-le (boolean true) b t left h = ground arith
  argument-le (boolean false) b t left h = ground arith
  argument-le (integer n) b t left h = ground arith
  argument-le (real x) b t left h =
      let (y, finite, made) = >>=-eq-ok (ok_or (from_f64 x) none) _ h in ground (arith, made)
  argument-le (string s) b t left h = ground arith
  argument-le (array es) b t left h =
      let ((vs, n), all, h1) = >>=-eq-ok (visit_values json es b) _ h in
      let (u, shown, made) = >>=-eq-ok (nested json (Value.array vs)) _ h1 in
      omega (arith, values-le es b vs n all, ap_left t u n left made)
  argument-le (object ms) b t left h =
      let ((fs, n), all, h1) = >>=-eq-ok (visit_fields json ms Fields.end b) _ h in
      let (u, shown, made) = >>=-eq-ok (nested json (Value.object fs)) _ h1 in
      omega (arith, fields-le ms Fields.end b fs n all, ap_left t u n left made)
  argument-le (broken skips) b t left h = absurd (ground arith)

  arguments-le :
      (es : Elements F) (b : ℕ) (ts : List Text) (left : ℕ)
      → visit_arguments json es b ≡ ok (ts, left)
      → left + length ts ≤ b
  unfolding visit_arguments
  arguments-le end b ts left h = ground arith
  arguments-le cut b ts left h = absurd (ground arith)
  arguments-le (element e es) b ts left h =
      let (after, paid, h1) = >>=-eq-ok (charge b) _ h in
      let ((a, rest), first, h2) = >>=-eq-ok (visit_argument json e after) _ h1 in
      let (us, others, made) = left_of (visit_arguments json es rest) _ ts left h2 in
      omega (
        arith,
        charge-eq-ok b after paid,
        argument-le e after a rest first,
        arguments-le es rest us left others,
        ap length made,
      )

  inside-le :
      (es : Elements F) (b : ℕ) (c : RedisCommand) (left : ℕ)
      → visit_command json es b ≡ ok (c, left)
      → left + (1 + length c.args) ≤ b
  unfolding visit_command
  inside-le end b c left h = absurd (ground arith)
  inside-le cut b c left h = absurd (ground arith)
  inside-le (element e es) b c left h =
      let (after, paid, h1) = >>=-eq-ok (charge b) _ h in
      let (name, named, h2) = >>=-eq-ok (visit_name json e) _ h1 in
      let (args, all, made) = left_of (visit_arguments json es after) _ c left h2 in
      omega (
        arith,
        charge-eq-ok b after paid,
        arguments-le es after args left all,
        ap (λ x. length x.args) made,
      )

  command-le :
      (s : Syntax F) (b : ℕ) (c : RedisCommand) (left : ℕ)
      → command_seed json s b ≡ ok (c, left)
      → left + (2 + length c.args) ≤ b
  unfolding command_seed
  command-le s b c left h =
      let (after, paid, h1) = >>=-eq-ok (charge b) _ h in
      let (es, is, h2) = >>=-eq-ok (elements json s) _ h1 in
      omega (arith, charge-eq-ok b after paid, inside-le es after c left h2)

-- The nodes of parsed commands that show in them: each command, its name and its arguments.
unfoldable pub parts : List RedisCommand → ℕ
parts [] = 0
parts (c ∷ cs) = 2 + length c.args + parts cs

module _ (json : Json) where
  open json use {F}

  finish-eq-ok :
      (done : Bool) (r : List RedisCommand × ℕ) (cs : List RedisCommand)
      → finish json done r ≡ ok cs
      → r.0 ≡ cs
  unfolding finish
  finish-eq-ok true r cs h = ground arith
  finish-eq-ok false r cs h = absurd (ground arith)

  visit_pipeline-le :
      (room : ℕ) (es : Elements F) (b : ℕ) (cs : List RedisCommand) (left : ℕ)
      → visit_pipeline json room es b ≡ ok (cs, left)
      → (length cs ≤ room) × (left + parts cs ≤ b)
  unfolding visit_pipeline parts
  visit_pipeline-le zero es b cs left h =
      let (u, last, made) = >>=-eq-ok (no_more json es) _ h in ground (arith, made)
  visit_pipeline-le (suc room) end b cs left h = ground arith
  visit_pipeline-le (suc room) cut b cs left h = absurd (ground arith)
  visit_pipeline-le (suc room) (element e es) b cs left h =
      let ((c, rest), first, h1) = >>=-eq-ok (command_seed json e b) _ h in
      let (ds, others, made) = left_of (visit_pipeline json room es rest) _ cs left h1 in
      let (short, few) = visit_pipeline-le room es rest ds left others in
      (
        omega (arith, short, ap length made),
        omega (arith, few, command-le json e b c rest first, ap parts made),
      )

  -- Whatever the body is, a pipeline that is parsed from it has no more commands than their limit,
  -- and its commands, names and arguments, with the array around them, are no more than the limit of
  -- nodes.
  pub pipeline_bounded :
      (body : Text) (max_commands max_elements : ℕ) (cs : List RedisCommand)
      → pipeline json body max_commands max_elements ≡ ok cs
      → (length cs ≤ max_commands) × (1 + parts cs ≤ max_elements)
  unfolding pipeline pipeline_seed
  pipeline_bounded body max_commands max_elements cs h =
      let (r, got, h1) =
        >>=-eq-ok
          (map_err classify (pipeline_seed json max_commands (json.read body).0 max_elements)) _
          h in
      let seed =
        map_err-eq-ok classify (pipeline_seed json max_commands (json.read body).0 max_elements) r
          got in
      let (after, paid, h2) = >>=-eq-ok (charge max_elements) _ seed in
      let (es, is, h3) = >>=-eq-ok (elements json (json.read body).0) _ h2 in
      let (short, few) = visit_pipeline-le max_commands es after r.0 r.1 h3 in
      let same = finish-eq-ok (json.read body).1 r cs h1 in
      (
        omega (arith, short, ap length same),
        omega (arith, few, charge-eq-ok max_elements after paid, ap parts same),
      )
