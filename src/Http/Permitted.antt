-- ===== src/Http/Permitted.antt =====
-- src/http: what the handlers of several commands send to Redis.
use srh_rs.Base.{
  ℕ, ◌≡◌, refl, ap, ◌∙◌, ◌⊎◌, inl, inr, List, [], ◌∷◌, ◌++◌, Option, Text, text, Result, ok, err,
  map_err, length, map, arith, All, Bool-cases, ◌==◌,
}
use srh_rs.Identity.{Identity}
use srh_rs.Resp.{RedisCommand}
use srh_rs.RateLimit.Floats.{Float}
use srh_rs.Acl.{AclError, check}
use srh_rs.Compat.{normalize}
use srh_rs.Failure.{AppError, bad_request}
use srh_rs.Http.Effect.{
  Server, lift, Settings, Backend, Read, read_body, ParseError, Slot, charge_rate_limit, acquire,
  send, map_exec_error, response_encoding,
}
use srh_rs.Http.Pipeline
use srh_rs.Http.MultiExec
use srh_rs.Http.Pipeline.{place, sort_commands, Sorted}
use srh_rs.Http.MultiExec.{check_all, both}
use srh_rs.Http.Sends.{>>=-cases, Sends, charge_sent, permitted, sort_commands-permitted}

module _ (f : Float) (sha256 : Text → Text) (cfg : Settings) (backend : Backend) where
  open f use {F}

  list_parsed-sent :
      (parse : Text → Result (List RedisCommand) ParseError) (identity : Identity) (now : ℕ)
      (r : Result (List RedisCommand) ParseError) (s : Server F)
      → ((Pipeline.parsed f sha256 parse cfg backend identity now r s).0.sent ≡ s.sent)
        × ((cs : List RedisCommand)
            → (Pipeline.parsed f sha256 parse cfg backend identity now r s).1 ≡ ok cs
            → r ≡ ok cs)
  unfolding Pipeline.parsed
  list_parsed-sent parse identity now (ok cs) s = (refl, λ c' e. ground arith)
  list_parsed-sent parse identity now (err e) s =
      >>=-cases
        (λ r. (r.0.sent ≡ s.sent) × ((cs : List RedisCommand) → r.1 ≡ ok cs → err e ≡ ok cs))
        (charge_rate_limit f identity.bucket_key 1 now)
        (λ u. lift (err (Pipeline.pipeline_failure e))) s
        (λ e' h. (charge_sent f identity.bucket_key 1 now s, λ c h'. absurd (ground arith)))
        (λ u h. (charge_sent f identity.bucket_key 1 now s, λ c h'. absurd (ground arith)))

  run_sorted-sent :
      (parse : Text → Result (List RedisCommand) ParseError) (identity : Identity)
      (header : Option Text) (n : ℕ) (sorted : Sorted) (s : Server F)
      → ((Pipeline.run_sorted f sha256 parse cfg backend identity header n sorted s).0.sent
          ≡ s.sent)
        ⊎ Sends s sorted.0
            (Pipeline.run_sorted f sha256 parse cfg backend identity header n sorted s).0
  unfolding Pipeline.run_sorted Pipeline.run_allowed
  run_sorted-sent parse identity header n ([], slots) s = elim (Bool-cases (n == 0)) [
    | inl t ↦ rw t (inl refl)
    | inr t ↦ rw t (inl refl)
  ]
  run_sorted-sent parse identity header n (c ∷ cs, slots) s = elim (Bool-cases (n == 0)) [
    | inl t ↦ rw t (inl refl)
    | inr t ↦ rw t (
        >>=-cases (λ r. (r.0.sent ≡ s.sent) ⊎ Sends s (c ∷ cs) r.0)
          (Pipeline.run_allowed f sha256 parse cfg backend identity (c ∷ cs))
          (λ results.
            lift (Pipeline.respond (response_encoding header) cfg.max_response_bytes slots results))
          s (λ e h. kept) (λ results h. kept))
  ]
    where
      kept :
          ((Pipeline.run_allowed f sha256 parse cfg backend identity (c ∷ cs) s).0.sent ≡ s.sent)
          ⊎ Sends s (c ∷ cs) (Pipeline.run_allowed f sha256 parse cfg backend identity (c ∷ cs) s).0
      kept =
          >>=-cases (λ r. (r.0.sent ≡ s.sent) ⊎ Sends s (c ∷ cs) r.0)
            (acquire cfg backend identity.pool) _ s (λ e h. inl refl) (λ u h. inr refl)

  -- A pipeline: Redis receives nothing, or one batch, which holds the normal forms of exactly those
  -- commands of the body that the policy permits, in their order.
  pub pipeline-Sends :
      (parse : Text → Result (List RedisCommand) ParseError) (identity : Identity)
      (header : Option Text) (request : Read) (now : ℕ) (s : Server F)
      → ((Pipeline.execute f sha256 parse cfg backend identity header request now s).0.sent
          ≡ s.sent)
        ⊎ ((body : Text) × (cs : List RedisCommand) × (read_body request ≡ ok body)
            × (parse body ≡ ok cs)
            × Sends s
                (map normalize (permitted sha256 identity cs))
                (Pipeline.execute f sha256 parse cfg backend identity header request now s).0)
  unfolding Pipeline.execute
  pipeline-Sends parse identity header request now s =
      >>=-cases P (lift (read_body request)) _ s (λ e h. inl refl)
        λ body read.
          >>=-cases P (Pipeline.parsed f sha256 parse cfg backend identity now (parse body)) _ s
            (λ e h. inl (list_parsed-sent parse identity now (parse body) s).0)
            λ cs got.
              let (kept, from) = list_parsed-sent parse identity now (parse body) s in
              let t : Server F =
                (Pipeline.parsed f sha256 parse cfg backend identity now (parse body) s).0 in
              let u : Server F = (charge_rate_limit f identity.bucket_key (length cs) now t).0 in
              let same : u.sent ≡ s.sent =
                charge_sent f identity.bucket_key (length cs) now t ∙ kept in
              >>=-cases P (charge_rate_limit f identity.bucket_key (length cs) now) _ t
                (λ e h. inl same)
                λ w paid.
                  >>=-cases P (lift (sort_commands sha256 identity cs)) _ u (λ e h. inl same)
                    λ sorted sorts.
                      elim (run_sorted-sent parse identity header (length cs) sorted u) [
                        | inl nothing ↦ inl (nothing ∙ same)
                        | inr batch ↦ inr (
                          body,
                          cs,
                          read,
                          from cs got,
                          batch
                              ∙ (ap (λ x. x ++ (sorted.0 ∷ [])) same
                                  ∙ ap (λ x. s.sent ++ (x ∷ []))
                                      (sort_commands-permitted sha256 identity cs sorted sorts)),
                        )
                      ]
    where
      P : Server F × Result (List Slot) AppError → Type 0
      P r =
          (r.0.sent ≡ s.sent)
          ⊎ ((body : Text) × (cs : List RedisCommand) × (read_body request ≡ ok body)
              × (parse body ≡ ok cs)
              × Sends s (map normalize (permitted sha256 identity cs)) r.0)

  transaction_parsed-sent :
      (parse : Text → Result (List RedisCommand) ParseError) (identity : Identity) (now : ℕ)
      (r : Result (List RedisCommand) ParseError) (s : Server F)
      → ((MultiExec.parsed f sha256 parse cfg backend identity now r s).0.sent ≡ s.sent)
        × ((cs : List RedisCommand)
            → (MultiExec.parsed f sha256 parse cfg backend identity now r s).1 ≡ ok cs
            → r ≡ ok cs)
  unfolding MultiExec.parsed
  transaction_parsed-sent parse identity now (ok (c ∷ cs)) s = (refl, λ c' e. ground arith)
  transaction_parsed-sent parse identity now (ok []) s =
      >>=-cases
        (λ r.
          (r.0.sent ≡ s.sent)
          × ((cs : List RedisCommand)
              → r.1 ≡ ok cs
              → ◌≡◌ {A = Result (List RedisCommand) ParseError} (ok []) (ok cs)))
        (charge_rate_limit f identity.bucket_key 1 now)
        (λ u. lift (err (bad_request (text "Invalid command")))) s
        (λ e' h. (charge_sent f identity.bucket_key 1 now s, λ c h'. absurd (ground arith)))
        (λ u h. (charge_sent f identity.bucket_key 1 now s, λ c h'. absurd (ground arith)))
  transaction_parsed-sent parse identity now (err e) s =
      >>=-cases
        (λ r. (r.0.sent ≡ s.sent) × ((cs : List RedisCommand) → r.1 ≡ ok cs → err e ≡ ok cs))
        (charge_rate_limit f identity.bucket_key 1 now)
        (λ u. lift (err (Pipeline.pipeline_failure e))) s
        (λ e' h. (charge_sent f identity.bucket_key 1 now s, λ c h'. absurd (ground arith)))
        (λ u h. (charge_sent f identity.bucket_key 1 now s, λ c h'. absurd (ground arith)))

  both-eq-ok :
      (r : Result (Unit {0}) AclError) (rest : Result (Unit {0}) AppError) (u : Unit {0})
      → both r rest ≡ ok u
      → (r ≡ ok tt) × (rest ≡ ok tt)
  both-eq-ok (ok v) rest u h = (refl, h)
  both-eq-ok (err e) rest u h = absurd (ground arith)

  check_all-All :
      (identity : Identity) (cs : List RedisCommand) (u : Unit {0})
      → check_all sha256 identity cs ≡ ok u
      → All (λ c. check sha256 identity c ≡ ok tt) cs
  unfolding check_all
  check_all-All identity [] u h = tt
  check_all-All identity (c ∷ cs) u h =
      let (fine, rest) = both-eq-ok (check sha256 identity c) (check_all sha256 identity cs) u h in
      (fine, check_all-All identity cs tt rest)

  -- A transaction is all or nothing for the policy: Redis receives nothing, or the normal forms of
  -- all the commands that the body parsed to, each of which the policy permits.
  pub transaction-Sends :
      (parse : Text → Result (List RedisCommand) ParseError) (identity : Identity)
      (header : Option Text) (request : Read) (now : ℕ) (s : Server F)
      → ((MultiExec.execute f sha256 parse cfg backend identity header request now s).0.sent
          ≡ s.sent)
        ⊎ ((body : Text) × (cs : List RedisCommand) × (read_body request ≡ ok body)
            × (parse body ≡ ok cs)
            × All (λ c. check sha256 identity c ≡ ok tt) cs
            × Sends s
                (map normalize cs)
                (MultiExec.execute f sha256 parse cfg backend identity header request now s).0)
  unfolding MultiExec.execute
  transaction-Sends parse identity header request now s =
      >>=-cases P (lift (read_body request)) _ s (λ e h. inl refl)
        λ body read.
          >>=-cases P (MultiExec.parsed f sha256 parse cfg backend identity now (parse body)) _ s
            (λ e h. inl (transaction_parsed-sent parse identity now (parse body) s).0)
            λ cs got.
              let (kept, from) = transaction_parsed-sent parse identity now (parse body) s in
              let t : Server F =
                (MultiExec.parsed f sha256 parse cfg backend identity now (parse body) s).0 in
              let u : Server F = (charge_rate_limit f identity.bucket_key (length cs) now t).0 in
              let same : u.sent ≡ s.sent =
                charge_sent f identity.bucket_key (length cs) now t ∙ kept in
              let v : Server F = (send (map normalize cs) u).0 in
              >>=-cases P (charge_rate_limit f identity.bucket_key (length cs) now) _ t
                (λ e h. inl same)
                λ w paid.
                  >>=-cases P (lift (check_all sha256 identity cs)) _ u (λ e h. inl same)
                    λ w fine.
                      let done : (body : Text) × (cs : List RedisCommand) × (read_body request
                            ≡ ok body)
                          × (parse body ≡ ok cs)
                          × All (λ c. check sha256 identity c ≡ ok tt) cs
                          × Sends s (map normalize cs) v =
                        (
                          body,
                          cs,
                          read,
                          from cs got,
                          check_all-All identity cs w fine,
                          ap (λ x. x ++ (map normalize cs ∷ [])) same,
                        ) in
                      >>=-cases P (acquire cfg backend identity.pool) _ u (λ e h. inl same)
                        λ w' got'.
                          >>=-cases P
                            (lift (
                              map_err (map_exec_error cfg)
                                (backend.transaction (map normalize cs))))
                            _ v (λ e h. inr done) λ results ran. inr done
    where
      P : Server F × Result (List Slot) AppError → Type 0
      P r =
          (r.0.sent ≡ s.sent)
          ⊎ ((body : Text) × (cs : List RedisCommand) × (read_body request ≡ ok body)
              × (parse body ≡ ok cs)
              × All (λ c. check sha256 identity c ≡ ok tt) cs
              × Sends s (map normalize cs) r.0)
