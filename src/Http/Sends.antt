-- ===== src/Http/Sends.antt =====
-- src/http: what the steps of the handlers leave, and what the handler of one command sends.
use srh_rs.Base.{
  ℕ, ◌≡◌, refl, ap, ◌∙◌, ◌⊎◌, inl, inr, List, [], ◌∷◌, ◌++◌, Option, Text, Result, ok, err, map_err,
  map_err-eq-ok, map, arith, Bool, true, false, if◌then◌else◌,
}
use srh_rs.Identity.{Identity}
use srh_rs.Resp.{RedisCommand, RespValue}
use srh_rs.Convert.{Encoding, plain}
use srh_rs.Http.Answered.{permits, refuses, sorted_nil, sorted_cons}
use srh_rs.RateLimit.Floats.{Float}
use srh_rs.Acl.{check}
use srh_rs.Compat.{normalize}
use srh_rs.Failure.{AppError, from_acl}
use srh_rs.Http.Effect.{
  Server, Handler, ◌>>=◌, lift, proceed, Settings, Backend, Read, read_body, ParseError,
  charge_rate_limit, acquire, send, map_exec_error, response_encoding, charge_reply,
}
use srh_rs.Http.Command
use srh_rs.Http.Pipeline.{sort_commands, Sorted}

-- What a handler leaves and answers, by the outcome of its first step.
pub >>=-cases :
    {F A B : Type 0} (P : Server F × Result B AppError → Type 0) (m : Handler F A)
    (k : A → Handler F B) (s : Server F)
    → ((e : AppError) → (m s).1 ≡ err e → P ((m s).0, err e))
    → ((a : A) → (m s).1 ≡ ok a → P (k a (m s).0))
    → P ((m >>= k) s)
>>=-cases {F = F} {A = A} P m k s failing going = go (m s).0 (m s).1 failing going
  where
    go :
        (t : Server F) (r : Result A AppError)
        → ((e : AppError) → r ≡ err e → P (t, err e))
        → ((a : A) → r ≡ ok a → P (k a t))
        → P (proceed (t, r) k)
    go t (ok a) bad good = good a refl
    go t (err e) bad good = bad e refl

-- A batch has gone to Redis, or nothing has.
abbrev pub Sends : {F : Type 0} → Server F → List RedisCommand → Server F → Type 0
Sends s batch t = t.sent ≡ s.sent ++ (batch ∷ [])

pub charge_sent :
    (f : Float) (key : Text) (n now : ℕ) (s : Server (f.F))
    → (charge_rate_limit f key n now s).0.sent ≡ s.sent
unfolding charge_rate_limit
charge_sent f key n now s = refl

unfoldable pub is_ok : {A E : Type 0} → Result A E → Bool
is_ok (ok a) = true
is_ok (err e) = false

-- The commands that the policy permits, in their order.
unfoldable pub permitted : (Text → Text) → Identity → List RedisCommand → List RedisCommand
unfolding is_ok
permitted sha256 identity [] = []
permitted sha256 identity (c ∷ cs) =
    if is_ok (check sha256 identity c)
    then c ∷ permitted sha256 identity cs
    else permitted sha256 identity cs

pub sort_commands-permitted :
    (sha256 : Text → Text) (identity : Identity) (cs : List RedisCommand) (sorted : Sorted)
    → sort_commands sha256 identity cs ≡ ok sorted
    → sorted.0 ≡ map normalize (permitted sha256 identity cs)
unfolding permitted is_ok
sort_commands-permitted sha256 identity [] sorted h =
    (sorted_nil sha256 identity plain sorted.0 sorted.1 h).0
sort_commands-permitted sha256 identity (c ∷ cs) sorted h =
    elim (sorted_cons sha256 identity plain c cs sorted h) [
      | permits allowed slots fine rest is ↦ rw fine (
          ap (λ x. x.0) is
          ∙ ap (λ x. normalize c ∷ x)
              (sort_commands-permitted sha256 identity cs (allowed, slots) rest))
      | refuses allowed slots m bad rest is ↦
          rw bad
            (ap (λ x. x.0) is ∙ sort_commands-permitted sha256 identity cs (allowed, slots) rest)
    ]

module _ (f : Float) (sha256 : Text → Text) (cfg : Settings) (backend : Backend) where
  open f use {F}

  parsed-sent :
      (parse : Text → Result RedisCommand ParseError) (identity : Identity) (now : ℕ)
      (r : Result RedisCommand ParseError) (s : Server F)
      → ((Command.parsed f sha256 parse cfg backend identity now r s).0.sent ≡ s.sent)
        × ((c : RedisCommand)
            → (Command.parsed f sha256 parse cfg backend identity now r s).1 ≡ ok c
            → r ≡ ok c)
  unfolding Command.parsed
  parsed-sent parse identity now (ok c) s = (refl, λ c' e. ground arith)
  parsed-sent parse identity now (err e) s =
      >>=-cases (λ r. (r.0.sent ≡ s.sent) × ((c : RedisCommand) → r.1 ≡ ok c → err e ≡ ok c))
        (charge_rate_limit f identity.bucket_key 1 now) (λ u. lift (err (Command.parse_failure e)))
        s (λ e' h. (charge_sent f identity.bucket_key 1 now s, λ c h'. absurd (ground arith)))
        (λ u h. (charge_sent f identity.bucket_key 1 now s, λ c h'. absurd (ground arith)))

  -- One command: Redis receives nothing, or exactly the normal form of the command that the body
  -- parsed to, which the policy permits to the identity.
  pub execute-Sends :
      (parse : Text → Result RedisCommand ParseError) (identity : Identity) (header : Option Text)
      (request : Read) (now : ℕ) (s : Server F)
      → ((Command.execute f sha256 parse cfg backend identity header request now s).0.sent ≡ s.sent)
        ⊎ ((body : Text) × (c : RedisCommand) × (read_body request ≡ ok body)
            × (parse body ≡ ok c)
            × (check sha256 identity c ≡ ok tt)
            × Sends s
                (normalize c ∷ [])
                (Command.execute f sha256 parse cfg backend identity header request now s).0)
  unfolding Command.execute
  execute-Sends parse identity header request now s =
      >>=-cases P (lift (read_body request)) _ s (λ e h. inl refl)
        λ body read.
          >>=-cases P (Command.parsed f sha256 parse cfg backend identity now (parse body)) _ s
            (λ e h. inl (parsed-sent parse identity now (parse body) s).0)
            λ c got.
              let (kept, from) = parsed-sent parse identity now (parse body) s in
              let t : Server F =
                (Command.parsed f sha256 parse cfg backend identity now (parse body) s).0 in
              let u : Server F = (charge_rate_limit f identity.bucket_key 1 now t).0 in
              let same : u.sent ≡ s.sent = charge_sent f identity.bucket_key 1 now t ∙ kept in
              let v : Server F = (send (normalize c ∷ []) u).0 in
              >>=-cases P (charge_rate_limit f identity.bucket_key 1 now) _ t (λ e h. inl same)
                λ w paid.
                  >>=-cases P (lift (map_err from_acl (check sha256 identity c))) _ u
                    (λ e h. inl same)
                    λ w fine.
                      let done : (body : Text) × (c : RedisCommand) × (read_body request ≡ ok body)
                          × (parse body ≡ ok c)
                          × (check sha256 identity c ≡ ok tt)
                          × Sends s (normalize c ∷ []) v =
                        (
                          body,
                          c,
                          read,
                          from c got,
                          map_err-eq-ok from_acl (check sha256 identity c) w fine,
                          ap (λ x. x ++ ((normalize c ∷ []) ∷ [])) same,
                        ) in
                      >>=-cases P (acquire cfg backend identity.pool) _ u (λ e h. inl same)
                        λ w' got'.
                          >>=-cases P
                            (lift (map_err (map_exec_error cfg) (backend.execute (normalize c)))) _
                            v (λ e h. inr done)
                            λ value ran.
                              >>=-cases P
                                (lift (
                                  charge_reply value (response_encoding header)
                                    cfg.max_response_bytes))
                                _ v (λ e h. inr done) λ left h. inr done
    where
      P : Server F × Result (RespValue × Encoding) AppError → Type 0
      P r =
          (r.0.sent ≡ s.sent)
          ⊎ ((body : Text) × (c : RedisCommand) × (read_body request ≡ ok body)
              × (parse body ≡ ok c)
              × (check sha256 identity c ≡ ok tt)
              × Sends s (normalize c ∷ []) r.0)
