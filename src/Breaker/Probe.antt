-- ===== src/Breaker/Probe.antt =====
-- src/domain/breaker.rs: which permits still count.
use srh_rs.Base.{
  ℕ, ◌+◌, ◌<◌, ◌≤◌, ◌≡◌, refl, List, [], ◌∷◌, none, arith, u64_mod, ◌≢◌, Bool, true, false, ◌&&◌,
  ◌==◌, if◌then◌else◌, length, Result, ok, err, ◌⊎◌, inl, inr,
}
use srh_rs.Breaker.{
  Breaker, BreakerPermit, BreakerAdmission, Call, admits, records, cancels, half_open, is_half_open,
  new, admit, record_outcome, cancel, step,
}

-- A call with a permit of another generation changes nothing and reports no transition; so does a
-- probe's permit unless the breaker is half open, and a request's permit unless it is closed.
pub stale_permit :
    (b : Breaker) (permit : BreakerPermit) (failed : Bool) (now : ℕ)
    → (permit.generation ≢ b.generation)
    → (record_outcome b permit failed now ≡ (b, none)) × (cancel b permit ≡ b)
unfolding record_outcome cancel
stale_permit b permit failed now h = (ground arith, ground arith)

-- The permits that the breaker has handed out, newest first.
abbrev pub collect : Result BreakerAdmission ℕ → List BreakerPermit → List BreakerPermit
collect (ok a) ps = a.permit ∷ ps
collect (err e) ps = ps

unfoldable pub issue : Breaker → Call → List BreakerPermit → List BreakerPermit
unfolding admit
issue b (admits now) ps = collect (admit b now).1 ps
issue b (records permit failed now) ps = ps
issue b (cancels permit) ps = ps

unfoldable pub history : Breaker → List BreakerPermit → List Call → Breaker × List BreakerPermit
unfolding step issue
history b ps [] = (b, ps)
history b ps (c ∷ cs) = history (step b c) (issue b c ps) cs

-- Whether recording the permit would decide the half-open state.
abbrev pub is_live : Breaker → BreakerPermit → Bool
is_live b p = p.probe && (is_half_open b.state && p.generation == b.generation)

unfoldable pub count_live : Breaker → List BreakerPermit → ℕ
count_live b [] = 0
count_live b (p ∷ ps) = (if is_live b p then 1 else 0) + count_live b ps

-- No permit is of a later generation.
abbrev Upto : ℕ → List BreakerPermit → Type 0
Upto g [] = Unit {0}
Upto g (p ∷ ps) = (p.generation ≤ g) × Upto g ps

Upto-mono : {g h : ℕ} (ps : List BreakerPermit) → g ≤ h → Upto g ps → Upto h ps
Upto-mono [] le u = tt
Upto-mono (p ∷ ps) le (q, u) = (omega arith, Upto-mono ps le u)

count_live_later :
    (g : ℕ) (b : Breaker) (ps : List BreakerPermit)
    → Upto g ps
    → g < b.generation
    → count_live b ps ≡ 0
unfolding count_live
count_live_later g b [] u h = refl
count_live_later g b (p ∷ ps) (q, u) h = ground (arith, count_live_later g b ps u h)

count_live_shut :
    (b : Breaker) (ps : List BreakerPermit) → b.state ≢ half_open → count_live b ps ≡ 0
unfolding count_live
count_live_shut b [] h = refl
count_live_shut b (p ∷ ps) h = ground (arith, count_live_shut b ps h)

count_live_same :
    (b c : Breaker) (ps : List BreakerPermit)
    → b.state ≡ c.state
    → b.generation ≡ c.generation
    → count_live b ps ≡ count_live c ps
unfolding count_live
count_live_same b c [] s g = refl
count_live_same b c (p ∷ ps) s g = ground (arith, count_live_same b c ps s g)

-- Every permit handed out is of a generation up to now, and at most one of them is live.
abbrev IsExclusive : Breaker → List BreakerPermit → Type 0
IsExclusive b ps = Upto b.generation ps × (count_live b ps ≤ 1)

module _ (b : Breaker) (ps : List BreakerPermit) (fits : b.generation + 1 < u64_mod) where
  -- A call that keeps the state and the generation, or moves on to a later generation.
  moved :
      (c : Breaker)
      → ((b.state ≡ c.state) × (b.generation ≡ c.generation)) ⊎ (c.generation ≡ b.generation + 1)
      → IsExclusive b ps
      → IsExclusive c ps
  moved c (inl (s, g)) (u, le) = (rw (← g) u, omega (arith, count_live_same b c ps s g))
  moved c (inr g) (u, le) = (
    Upto-mono ps (omega arith) u,
    omega (arith, count_live_later b.generation c ps u (omega arith)),
  )

  admit-IsExclusive :
      (now : ℕ) → IsExclusive b ps → IsExclusive (admit b now).0 (collect (admit b now).1 ps)
  unfolding admit count_live
  admit-IsExclusive now (u, le) = ground (
    arith,
    count_live_later b.generation (admit b now).0 ps u,
    Upto-mono {g = b.generation} {h = b.generation + 1} ps,
  )

  record_outcome-IsExclusive :
      (permit : BreakerPermit) (failed : Bool) (now : ℕ)
      → IsExclusive b ps
      → IsExclusive (record_outcome b permit failed now).0 ps
  unfolding record_outcome
  record_outcome-IsExclusive permit true now = moved _ (ground arith)
  record_outcome-IsExclusive permit false now = moved _ (ground arith)

  cancel-IsExclusive :
      (permit : BreakerPermit) → IsExclusive b ps → IsExclusive (cancel b permit) ps
  unfolding cancel
  cancel-IsExclusive permit = moved _ (ground arith)

  step-IsExclusive : (c : Call) → IsExclusive b ps → IsExclusive (step b c) (issue b c ps)
  unfolding step issue
  step-IsExclusive (admits now) = admit-IsExclusive now
  step-IsExclusive (records permit failed now) = record_outcome-IsExclusive permit failed now
  step-IsExclusive (cancels permit) = cancel-IsExclusive permit

generation-step :
    (b : Breaker) (c : Call) → b.generation + 1 < u64_mod → (step b c).generation ≤ b.generation + 1
unfolding step admit record_outcome cancel
generation-step b (admits now) h = ground arith
generation-step b (records permit true now) h = ground arith
generation-step b (records permit false now) h = ground arith
generation-step b (cancels permit) h = ground arith

history-IsExclusive :
    (b : Breaker) (ps : List BreakerPermit) (cs : List Call)
    → b.generation + length cs < u64_mod
    → IsExclusive b ps
    → IsExclusive (history b ps cs).0 (history b ps cs).1
unfolding history
history-IsExclusive b ps [] h v = v
history-IsExclusive b ps (c ∷ cs) h v =
    history-IsExclusive (step b c) (issue b c ps) cs
      (omega (arith, generation-step b c (omega arith))) (step-IsExclusive b ps (omega arith) c v)

-- In any sequence of fewer than 2^64 calls on a new breaker, with any permits, at most one of the
-- permits handed out so far is a probe whose outcome would still decide the half-open state.
pub one_probe :
    (threshold cooldown : ℕ) (cs : List Call)
    → length cs < u64_mod
    → let (b, issued) = history (new threshold cooldown) [] cs in count_live b issued ≤ 1
unfolding new
one_probe threshold cooldown cs h =
    let start : IsExclusive (new threshold cooldown) [] = (tt, unfold count_live in omega arith) in
    (history-IsExclusive (new threshold cooldown) [] cs (omega arith) start).1
