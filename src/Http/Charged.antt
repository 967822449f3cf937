-- ===== src/Http/Charged.antt =====
-- src/http: what the handlers charge to the rate limiter.
use srh_rs.Base.{
  ℕ, max, ◌≡◌, refl, ap, ◌∙◌, inl, inr, List, [], ◌∷◌, Option, Text, text, Result, ok, err, map_err,
  length, map, arith, Bool-cases, ◌==◌,
}
use srh_rs.Identity.{Identity}
use srh_rs.Resp.{RedisCommand, RespValue}
use srh_rs.RateLimit.Floats.{Float}
use srh_rs.Acl.{check}
use srh_rs.Compat.{normalize}
use srh_rs.Convert.{Encoding}
use srh_rs.Failure.{AppError, from_acl, bad_request}
use srh_rs.Http.Effect.{
  Server, ◌>>=◌, lift, Settings, Backend, whole, read_body, ParseError, Slot, charge_rate_limit,
  acquire, send, map_exec_error, response_encoding, charge_reply,
}
use srh_rs.Http.Command
use srh_rs.Http.Pipeline
use srh_rs.Http.Pipeline.{sort_commands, Sorted}
use srh_rs.Http.MultiExec
use srh_rs.Http.MultiExec.{check_all}
use srh_rs.Http.Sends.{>>=-cases}

-- What the handlers of several commands charge for a parsed body.
abbrev pub pipeline_cost : Result (List RedisCommand) ParseError → ℕ
pipeline_cost (ok cs) = length cs
pipeline_cost (err e) = 1

abbrev pub transaction_cost : Result (List RedisCommand) ParseError → ℕ
transaction_cost (ok cs) = max (length cs) 1
transaction_cost (err e) = 1

-- A body that is refused has paid `n`, and one that goes on has paid nothing yet and is to pay `n`.
record Pays {F A : Type 0} (count : A → ℕ) (n : ℕ) (s : Server F) (paid : ℕ → Server F)
    (r : Server F × Result A AppError) : Type 0 where
  pub now_paid : (e : AppError) → r.1 ≡ err e → r.0.limiter ≡ (paid n).limiter
  pub to_pay : (a : A) → r.1 ≡ ok a → (r.0 ≡ s) × (count a ≡ n)

module _ (f : Float) (sha256 : Text → Text) (cfg : Settings) (backend : Backend) where
  open f use {F}

  -- A refusal after the charge.
  refusal-Pays :
      {A : Type 0} (count : A → ℕ) (key : Text) (now : ℕ) (s : Server F) (e : AppError)
      → Pays count 1 s
          (λ n. (charge_rate_limit f key n now s).0)
          (((charge_rate_limit f key 1 now) >>= (λ u. lift {A = A} (err e))) s)
  refusal-Pays count key now s e =
      >>=-cases (Pays count 1 s (λ n. (charge_rate_limit f key n now s).0))
        (charge_rate_limit f key 1 now) (λ u. lift (err e)) s
        (λ e' h. record { now_paid = λ e'' h'. refl; to_pay = λ a h'. absurd (ground arith) })
        (λ u h. record { now_paid = λ e'' h'. refl; to_pay = λ a h'. absurd (ground arith) })

  parsed-Pays :
      (parse : Text → Result RedisCommand ParseError) (identity : Identity) (now : ℕ)
      (r : Result RedisCommand ParseError) (s : Server F)
      → Pays
          (λ c. 1)
          1
          s
          (λ n. (charge_rate_limit f identity.bucket_key n now s).0)
          (Command.parsed f sha256 parse cfg backend identity now r s)
  unfolding Command.parsed
  parsed-Pays parse identity now (ok c) s = record {
    now_paid = λ e h. absurd (ground arith);
    to_pay = λ a h. (refl, refl);
  }
  parsed-Pays parse identity now (err e) s =
      refusal-Pays (λ c. 1) identity.bucket_key now s (Command.parse_failure e)

  pipeline_parsed-Pays :
      (parse : Text → Result (List RedisCommand) ParseError) (identity : Identity) (now : ℕ)
      (r : Result (List RedisCommand) ParseError) (s : Server F)
      → Pays length
          (pipeline_cost r)
          s
          (λ n. (charge_rate_limit f identity.bucket_key n now s).0)
          (Pipeline.parsed f sha256 parse cfg backend identity now r s)
  unfolding Pipeline.parsed
  pipeline_parsed-Pays parse identity now (ok cs) s = record {
    now_paid = λ e h. absurd (ground arith);
    to_pay = λ a h. (refl, ground arith);
  }
  pipeline_parsed-Pays parse identity now (err e) s =
      refusal-Pays length identity.bucket_key now s (Pipeline.pipeline_failure e)

  transaction_parsed-Pays :
      (parse : Text → Result (List RedisCommand) ParseError) (identity : Identity) (now : ℕ)
      (r : Result (List RedisCommand) ParseError) (s : Server F)
      → Pays length
          (transaction_cost r)
          s
          (λ n. (charge_rate_limit f identity.bucket_key n now s).0)
          (MultiExec.parsed f sha256 parse cfg backend identity now r s)
  unfolding MultiExec.parsed
  transaction_parsed-Pays parse identity now (ok []) s =
      refusal-Pays length identity.bucket_key now s (bad_request (text "Invalid command"))
  transaction_parsed-Pays parse identity now (ok (c ∷ cs)) s = record {
    now_paid = λ e h. absurd (ground arith);
    to_pay = λ a h. (refl, ground arith);
  }
  transaction_parsed-Pays parse identity now (err e) s =
      refusal-Pays length identity.bucket_key now s (Pipeline.pipeline_failure e)

  -- The handler of one command charges the identity's bucket for one command, exactly once, for any
  -- body that arrives whole, whatever the outcome.
  pub execute-charges :
      (parse : Text → Result RedisCommand ParseError) (identity : Identity) (header : Option Text)
      (body : Text) (now : ℕ) (s : Server F)
      → (Command.execute f sha256 parse cfg backend identity header (whole body) now s).0.limiter
        ≡ (charge_rate_limit f identity.bucket_key 1 now s).0.limiter
  unfolding Command.execute read_body
  execute-charges parse identity header body now s =
      let pays = parsed-Pays parse identity now (parse body) s in
      >>=-cases P (Command.parsed f sha256 parse cfg backend identity now (parse body)) _ s
        pays.now_paid
        λ c got.
          let (same, n) = pays.to_pay c got in
          let t : Server F =
            (Command.parsed f sha256 parse cfg backend identity now (parse body) s).0 in
          let done : (charge_rate_limit f identity.bucket_key 1 now t).0.limiter ≡ paid.limiter =
            ap (λ x. (charge_rate_limit f identity.bucket_key 1 now x).0.limiter) same in
          let u : Server F = (charge_rate_limit f identity.bucket_key 1 now t).0 in
          let v : Server F = (send (normalize c ∷ []) u).0 in
          >>=-cases P (charge_rate_limit f identity.bucket_key 1 now) _ t (λ e h. done)
            λ w h.
              >>=-cases P (lift (map_err from_acl (check sha256 identity c))) _ u (λ e h. done)
                λ w h.
                  >>=-cases P (acquire cfg backend identity.pool) _ u (λ e h. done)
                    λ w h.
                      >>=-cases P
                        (lift (map_err (map_exec_error cfg) (backend.execute (normalize c)))) _ v
                        (λ e h. done)
                        λ value h.
                          >>=-cases P
                            (lift (
                              charge_reply value (response_encoding header) cfg.max_response_bytes))
                            _ v (λ e h. done) λ left h. done
    where
      paid : Server F
      paid = (charge_rate_limit f identity.bucket_key 1 now s).0

      P : Server F × Result (RespValue × Encoding) AppError → Type 0
      P r = r.0.limiter ≡ paid.limiter

  run_sorted-limiter :
      (parse : Text → Result (List RedisCommand) ParseError) (identity : Identity)
      (header : Option Text) (n : ℕ) (sorted : Sorted) (s : Server F)
      → (Pipeline.run_sorted f sha256 parse cfg backend identity header n sorted s).0.limiter
        ≡ s.limiter
  unfolding Pipeline.run_sorted Pipeline.run_allowed
  run_sorted-limiter parse identity header n ([], slots) s = elim (Bool-cases (n == 0)) [
    | inl t ↦ rw t refl
    | inr t ↦ rw t refl
  ]
  run_sorted-limiter parse identity header n (c ∷ cs, slots) s = elim (Bool-cases (n == 0)) [
    | inl t ↦ rw t refl
    | inr t ↦ rw t (
        >>=-cases (λ r. r.0.limiter ≡ s.limiter)
          (Pipeline.run_allowed f sha256 parse cfg backend identity (c ∷ cs))
          (λ results.
            lift (Pipeline.respond (response_encoding header) cfg.max_response_bytes slots results))
          s (λ e h. kept) (λ results h. kept))
  ]
    where
      kept :
          (Pipeline.run_allowed f sha256 parse cfg backend identity (c ∷ cs) s).0.limiter
          ≡ s.limiter
      kept =
          >>=-cases (λ r. r.0.limiter ≡ s.limiter) (acquire cfg backend identity.pool) _ s
            (λ e h. refl) (λ u h. refl)

  -- The handler of a pipeline charges the identity's bucket exactly once for any body that arrives
  -- whole: for all its commands, the refused ones too, or for one command if it does not parse.
  pub pipeline-charges :
      (parse : Text → Result (List RedisCommand) ParseError) (identity : Identity)
      (header : Option Text) (body : Text) (now : ℕ) (s : Server F)
      → (Pipeline.execute f sha256 parse cfg backend identity header (whole body) now s).0.limiter
        ≡ (charge_rate_limit f identity.bucket_key (pipeline_cost (parse body)) now s).0.limiter
  unfolding Pipeline.execute read_body
  pipeline-charges parse identity header body now s =
      let pays = pipeline_parsed-Pays parse identity now (parse body) s in
      >>=-cases P (Pipeline.parsed f sha256 parse cfg backend identity now (parse body)) _ s
        pays.now_paid
        λ cs got.
          let (same, n) = pays.to_pay cs got in
          let t : Server F =
            (Pipeline.parsed f sha256 parse cfg backend identity now (parse body) s).0 in
          let u : Server F = (charge_rate_limit f identity.bucket_key (length cs) now t).0 in
          let done : u.limiter ≡ paid.limiter =
            ap (λ x. (charge_rate_limit f identity.bucket_key (length cs) now x).0.limiter) same
            ∙ ap (λ m. (charge_rate_limit f identity.bucket_key m now s).0.limiter) n in
          >>=-cases P (charge_rate_limit f identity.bucket_key (length cs) now) _ t (λ e h. done)
            λ w h.
              >>=-cases P (lift (sort_commands sha256 identity cs)) _ u (λ e h. done)
                λ sorted h. run_sorted-limiter parse identity header (length cs) sorted u ∙ done
    where
      paid : Server F
      paid = (charge_rate_limit f identity.bucket_key (pipeline_cost (parse body)) now s).0

      P : Server F × Result (List Slot) AppError → Type 0
      P r = r.0.limiter ≡ paid.limiter

  -- The handler of a transaction charges the identity's bucket exactly once for any body that arrives
  -- whole: for all its commands, or for one if it has none or does not parse.
  pub transaction-charges :
      (parse : Text → Result (List RedisCommand) ParseError) (identity : Identity)
      (header : Option Text) (body : Text) (now : ℕ) (s : Server F)
      → (MultiExec.execute f sha256 parse cfg backend identity header (whole body) now s).0.limiter
        ≡ (charge_rate_limit f identity.bucket_key (transaction_cost (parse body)) now s).0.limiter
  unfolding MultiExec.execute read_body
  transaction-charges parse identity header body now s =
      let pays = transaction_parsed-Pays parse identity now (parse body) s in
      >>=-cases P (MultiExec.parsed f sha256 parse cfg backend identity now (parse body)) _ s
        pays.now_paid
        λ cs got.
          let (same, n) = pays.to_pay cs got in
          let t : Server F =
            (MultiExec.parsed f sha256 parse cfg backend identity now (parse body) s).0 in
          let u : Server F = (charge_rate_limit f identity.bucket_key (length cs) now t).0 in
          let done : u.limiter ≡ paid.limiter =
            ap (λ x. (charge_rate_limit f identity.bucket_key (length cs) now x).0.limiter) same
            ∙ ap (λ m. (charge_rate_limit f identity.bucket_key m now s).0.limiter) n in
          let v : Server F = (send (map normalize cs) u).0 in
          >>=-cases P (charge_rate_limit f identity.bucket_key (length cs) now) _ t (λ e h. done)
            λ w h.
              >>=-cases P (lift (check_all sha256 identity cs)) _ u (λ e h. done)
                λ w h.
                  >>=-cases P (acquire cfg backend identity.pool) _ u (λ e h. done)
                    λ w h.
                      >>=-cases P
                        (lift
                          (map_err (map_exec_error cfg) (backend.transaction (map normalize cs))))
                        _ v (λ e h. done) λ results h. done
    where
      paid : Server F
      paid = (charge_rate_limit f identity.bucket_key (transaction_cost (parse body)) now s).0

      P : Server F × Result (List Slot) AppError → Type 0
      P r = r.0.limiter ≡ paid.limiter
