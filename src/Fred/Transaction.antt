-- ===== src/Fred/Transaction.antt =====
-- src/adapters/fred_executor.rs: what a transaction sends, and how often a connection is reset.
use srh_rs.Base.{ℕ, suc, ◌≡◌, List, [], ◌∷◌, ◌++◌, Text, text, Result, ok, err, map, take}
use srh_rs.Resp.{RespValue, simple, ExecError, RedisCommand}
use srh_rs.Fred.{Frame, fred_frame_to_resp}
use srh_rs.Fred.Client.{ClientError, Sent, FredExecutor, Routing, as_sent, control, Outcome, send}

module _ (show_debug : RespValue → Text)
    (answer : FredExecutor → Sent → Result Frame ClientError) where
  -- An answer that is a status.
  abbrev pub Says : Text → Result Frame ClientError → Type 0
  Says status a = (f : Frame) × (a ≡ ok f) × (fred_frame_to_resp f ≡ ok (simple status))

  -- Commands that are each answered with `QUEUED`.
  unfoldable pub Queued : Routing → FredExecutor → List RedisCommand → Type 0
  Queued hash x [] = Unit {0}
  Queued hash x (c ∷ cs) =
      Says (text "QUEUED") (answer x (as_sent hash c)) × Queued hash (send x (as_sent hash c)) cs

  -- The first answer that is not `QUEUED` is that to the `n`-th of the commands.
  pub data Refused (hash : Routing) : FredExecutor → List RedisCommand → ℕ → Type 0 where
    refused_first :
        {x : FredExecutor} {c : RedisCommand} {cs : List RedisCommand}
        → ¬ Says (text "QUEUED") (answer x (as_sent hash c))
        → Refused hash x (c ∷ cs) 1
    refused_later :
        {x : FredExecutor} {c : RedisCommand} {cs : List RedisCommand} {n : ℕ}
        → Says (text "QUEUED") (answer x (as_sent hash c))
        → Refused hash (send x (as_sent hash c)) cs n
        → Refused hash x (c ∷ cs) (suc n)

  -- How a transaction that has been opened goes on, with its commands and what it has sent.
  pub data Closes (hash : Routing) (x : FredExecutor) (cs : List RedisCommand)
      (o : Outcome show_debug answer) : Type 0 where
    executed :
        Queued hash x cs
        → o.0.sent ≡ x.sent ++ (map (as_sent hash) cs ++ (control hash (text "EXEC") ∷ []))
        → Closes hash x cs o
    discarded :
        (n : ℕ) (e : ExecError)
        → Refused hash x cs n
        → o.0.sent
          ≡ x.sent ++ (map (as_sent hash) (take n cs) ++ (control hash (text "DISCARD") ∷ []))
        → o.1 ≡ err e
        → Closes hash x cs o
