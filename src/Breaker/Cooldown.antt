-- ===== src/Breaker/Cooldown.antt =====
-- src/domain/breaker.rs: the cooldown of an open breaker, and the `Retry-After` that it gives.
use srh_rs.Base.{ℕ, Bool, true, false, Result, ok, err}
use srh_rs.Breaker.{Breaker, BreakerAdmission}

abbrev pub is_admitted : Breaker × Result BreakerAdmission ℕ → Bool
is_admitted (b, ok a) = true
is_admitted (b, err e) = false
