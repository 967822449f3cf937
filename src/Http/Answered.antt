-- ===== src/Http/Answered.antt =====
-- src/http/pipeline.rs: which slot answers which command.
use srh_rs.Base.{
  ℕ, suc, ◌≡◌, refl, sym, ap, ◌∙◌, inl, inr, subst, List, [], ◌∷◌, Option, none, some, Text, text,
  Result, ok, err, length, arith, Result-cases,
}
use srh_rs.Identity.{Identity}
use srh_rs.Resp.{RespValue, RedisCommand, ExecError, transport, timeout, redis}
use srh_rs.Resp
use srh_rs.Acl.{AclError, check, forbidden}
use srh_rs.Compat.{normalize}
use srh_rs.Convert.{Encoding}
use srh_rs.Failure.{AppError}
use srh_rs.Http.Effect.{Slot, result, error, charge_reply}
use srh_rs.Http.Pipeline.{Sorted, place, sort_commands, slot_of, prepend, respond}

-- How a result shows in a slot.
pub data Shows (encoding : Encoding) : Result RespValue ExecError → Slot → Type 0 where
  value : {v : RespValue} → Shows encoding (ok v) (result v encoding)
  redis_message : {m : Text} → Shows encoding (err (redis m)) (error m)
  timed_out : Shows encoding (err timeout) (error (text "Redis command timed out"))
  hidden : {m : Text} → Shows encoding (err (transport m)) (error (text "Internal server error"))

-- Slots answer commands: a refused command by the policy's message, a permitted one by the next
-- result, and no result is left over.
pub data Answers (sha256 : Text → Text) (identity : Identity) (encoding : Encoding)
    : List RedisCommand → List (Result RespValue ExecError) → List Slot → Type 0 where
  finished : Answers sha256 identity encoding [] [] []
  refused :
      {c : RedisCommand} {cs : List RedisCommand} {rs : List (Result RespValue ExecError)}
      {ss : List Slot} {m : Text}
      → check sha256 identity c ≡ err (forbidden m)
      → Answers sha256 identity encoding cs rs ss
      → Answers sha256 identity encoding (c ∷ cs) rs (error m ∷ ss)
  answered :
      {c : RedisCommand} {cs : List RedisCommand} {r : Result RespValue ExecError}
      {rs : List (Result RespValue ExecError)} {s : Slot} {ss : List Slot}
      → check sha256 identity c ≡ ok tt
      → Shows encoding r s
      → Answers sha256 identity encoding cs rs ss
      → Answers sha256 identity encoding (c ∷ cs) (r ∷ rs) (s ∷ ss)

slot_of-Shows :
    (encoding : Encoding) (budget : ℕ) (r : Result RespValue ExecError) (s : Slot) (left : ℕ)
    → slot_of encoding budget r ≡ ok (s, left)
    → Shows encoding r s
unfolding slot_of
slot_of-Shows encoding budget (ok v) s left h =
    elim (Result-cases (charge_reply v encoding budget)) [
      | inl (n, fits) ↦ subst (Shows encoding (ok v)) (ground arith) value
      | inr (e, over) ↦ absurd (ground arith)
    ]
slot_of-Shows encoding budget (err (redis m)) s left h =
    subst (Shows encoding (err (redis m))) (ground arith) redis_message
slot_of-Shows encoding budget (err Resp.response_too_large) s left h = absurd (ground arith)
slot_of-Shows encoding budget (err timeout) s left h =
    subst (Shows encoding (err timeout)) (ground arith) timed_out
slot_of-Shows encoding budget (err (transport m)) s left h =
    subst (Shows encoding (err (transport m))) (ground arith) hidden

-- How a sorted list came about.
pub data Placed (command : RedisCommand) (r : Result (Unit {0}) AclError)
    (rest : Result Sorted AppError) (sorted : Sorted) : Type 0 where
  permits :
      (allowed : List RedisCommand) (slots : List (Option Text))
      → r ≡ ok tt
      → rest ≡ ok (allowed, slots)
      → sorted ≡ (normalize command ∷ allowed, none ∷ slots)
      → Placed command r rest sorted
  refuses :
      (allowed : List RedisCommand) (slots : List (Option Text)) (m : Text)
      → r ≡ err (forbidden m)
      → rest ≡ ok (allowed, slots)
      → sorted ≡ (allowed, some m ∷ slots)
      → Placed command r rest sorted

place-Placed :
    (command : RedisCommand) (r : Result (Unit {0}) AclError) (rest : Result Sorted AppError)
    (sorted : Sorted)
    → place command r rest ≡ ok sorted
    → Placed command r rest sorted
place-Placed command (ok u) (ok (allowed, slots)) sorted h =
    permits allowed slots refl refl (ground arith)
place-Placed command (ok u) (err e) sorted h = absurd (ground arith)
place-Placed command (err (forbidden m)) (ok (allowed, slots)) sorted h =
    refuses allowed slots m refl refl (ground arith)
place-Placed command (err (forbidden m)) (err e) sorted h = absurd (ground arith)
place-Placed command (err AclError.invalid_command) rest sorted h = absurd (ground arith)

prepend-eq-ok :
    (slot : Slot) (r : Result (List Slot) AppError) (ss : List Slot)
    → prepend slot r ≡ ok ss
    → (rest : List Slot) × (r ≡ ok rest) × (slot ∷ rest ≡ ss)
prepend-eq-ok slot (ok rest) ss h = (rest, refl, ground arith)
prepend-eq-ok slot (err e) ss h = absurd (ground arith)

-- A result taken by a slot.
record Took (encoding : Encoding) (budget : ℕ) (slots : List (Option Text))
    (rs : List (Result RespValue ExecError)) (ss : List Slot) : Type 0 where
  r : Result RespValue ExecError
  rest : List (Result RespValue ExecError)
  slot : Slot
  after : List Slot
  left : ℕ
  results : r ∷ rest ≡ rs
  slot_is : slot_of encoding budget r ≡ ok (slot, left)
  all : slot ∷ after ≡ ss
  rest_is : respond encoding left slots rest ≡ ok after

respond-Took :
    (encoding : Encoding) (budget : ℕ) (slots : List (Option Text))
    (rs : List (Result RespValue ExecError)) (ss : List Slot)
    → respond encoding budget (none ∷ slots) rs ≡ ok ss
    → Took encoding budget slots rs ss
unfolding respond
respond-Took encoding budget slots [] ss h = absurd (ground arith)
respond-Took encoding budget slots (r ∷ rs) ss h = elim (Result-cases (slot_of encoding budget r)) [
  | inl ((slot, left), is) ↦
      let (after, rest_is, all) =
        prepend-eq-ok slot (respond encoding left slots rs) ss (ground arith) in
      record {
        r = r;
        rest = rs;
        slot = slot;
        after = after;
        left = left;
        results = refl;
        slot_is = is;
        all = all;
        rest_is = rest_is;
      }
  | inr (e, is) ↦ absurd (ground arith)
]

respond_of_nil :
    (encoding : Encoding) (budget : ℕ) (rs : List (Result RespValue ExecError)) (ss : List Slot)
    → respond encoding budget [] rs ≡ ok ss
    → (rs ≡ []) × (ss ≡ [])
unfolding respond
respond_of_nil encoding budget [] ss h = ground arith
respond_of_nil encoding budget (r ∷ rs) ss h = absurd (ground arith)

respond_of_denied :
    (encoding : Encoding) (budget : ℕ) (m : Text) (slots : List (Option Text))
    (rs : List (Result RespValue ExecError)) (ss : List Slot)
    → respond encoding budget (some m ∷ slots) rs ≡ ok ss
    → (rest : List Slot) × (respond encoding budget slots rs ≡ ok rest) × (error m ∷ rest ≡ ss)
unfolding respond
respond_of_denied encoding budget m slots [] ss h =
    prepend-eq-ok (error m) (respond encoding budget slots []) ss h
respond_of_denied encoding budget m slots (r ∷ rs) ss h =
    prepend-eq-ok (error m) (respond encoding budget slots (r ∷ rs)) ss h

module _ (sha256 : Text → Text) (identity : Identity) (encoding : Encoding) where
  pub sorted_nil :
      (allowed : List RedisCommand) (slots : List (Option Text))
      → sort_commands sha256 identity [] ≡ ok (allowed, slots)
      → (allowed ≡ []) × (slots ≡ [])
  unfolding sort_commands
  sorted_nil allowed slots h = ground arith

  pub sorted_cons :
      (c : RedisCommand) (cs : List RedisCommand) (sorted : Sorted)
      → sort_commands sha256 identity (c ∷ cs) ≡ ok sorted
      → Placed c (check sha256 identity c) (sort_commands sha256 identity cs) sorted
  unfolding sort_commands
  sorted_cons c cs sorted h =
      place-Placed c (check sha256 identity c) (sort_commands sha256 identity cs) sorted h

  -- A pipeline's slots answer its commands in the order of the request: a command that the policy
  -- refuses gets its message, every other the next result of the batch, as its value, its Redis
  -- message or a fixed text; and the batch has exactly as many results as permitted commands.
  pub respond-Answers :
      (cs : List RedisCommand) (allowed : List RedisCommand) (slots : List (Option Text))
      (budget : ℕ) (rs : List (Result RespValue ExecError)) (ss : List Slot)
      → sort_commands sha256 identity cs ≡ ok (allowed, slots)
      → respond encoding budget slots rs ≡ ok ss
      → Answers sha256 identity encoding cs rs ss × (length rs ≡ length allowed)
  respond-Answers [] allowed slots budget rs ss h g =
      let (none_allowed, no_slots) = sorted_nil allowed slots h in
      let (no_results, empty) = respond_of_nil encoding budget rs ss (rw (sym no_slots) g) in
      (rw (no_results, empty) finished, ground arith)
  respond-Answers (c ∷ cs) allowed slots budget rs ss h g =
      elim (sorted_cons c cs (allowed, slots) h) [
        | permits allowed' slots' fine rest is ↦
            let took =
              respond-Took encoding budget slots' rs ss
                (subst (λ x. respond encoding budget x rs ≡ ok ss) (ap (λ x. x.1) is) g) in
            let (tail, same) =
              respond-Answers cs allowed' slots' took.left took.rest took.after rest took.rest_is in
            let shown = slot_of-Shows encoding budget took.r took.slot took.left took.slot_is in
            (
              subst (λ x. Answers sha256 identity encoding (c ∷ cs) x ss) took.results
                  (subst (Answers sha256 identity encoding (c ∷ cs) (took.r ∷ took.rest)) took.all
                    (answered fine shown tail)),
              ap length (sym took.results) ∙ (ap suc same ∙ ap (λ x. length x.0) (sym is)),
            )
        | refuses allowed' slots' m bad rest is ↦
            let (after, rest_is, all) =
              respond_of_denied encoding budget m slots' rs ss
                (subst (λ x. respond encoding budget x rs ≡ ok ss) (ap (λ x. x.1) is) g) in
            let (tail, same) = respond-Answers cs allowed' slots' budget rs after rest rest_is in
            (
              subst (Answers sha256 identity encoding (c ∷ cs) rs) all (refused bad tail),
              same ∙ ap (λ x. length x.0) (sym is),
            )
      ]
