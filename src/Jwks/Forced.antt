-- ===== src/Jwks/Forced.antt =====
-- src/adapters/http_jwks.rs: how often unknown key ids can make the server ask for keys.
use srh_rs.Base.{ℕ, ◌+◌, ◌-◌, ◌≤◌, Bool, List, [], ◌∷◌, Text, if◌then◌else◌, arith}
use srh_rs.Jwks.{KeyCache, Web, refresh}

-- One call of `refresh`, with what the outside gives it.
pub record Call : Type 1 where
  pub web : Web
  pub forced : Bool
  pub now : ℕ

module _ (issuer : Text) (refresh_after : ℕ) where
  -- How often a call goes through to its requests, if it is forced.
  abbrev pub asks : Call → KeyCache → ℕ
  asks c cache =
      if c.forced
      then (refresh issuer refresh_after c.web c.forced c.now cache).0.fetches - cache.fetches
      else 0

  unfoldable pub forced_asks : KeyCache → List Call → ℕ
  forced_asks cache [] = 0
  forced_asks cache (c ∷ cs) =
      asks c cache + forced_asks (refresh issuer refresh_after c.web c.forced c.now cache).0 cs

  -- The times do not run backwards, from a time to a time.
  abbrev pub Ordered : ℕ → List Call → ℕ → Type 0
  Ordered start [] end = start ≤ end
  Ordered start (c ∷ cs) end = (start ≤ c.now) × Ordered c.now cs end

  Ordered-le : (start : ℕ) (cs : List Call) (end : ℕ) → Ordered start cs end → start ≤ end
  Ordered-le start [] end o = o
  Ordered-le start (c ∷ cs) end (le, o) = omega (arith, Ordered-le c.now cs end o)
