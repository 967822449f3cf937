-- ===== src/RateLimit/Tests.antt =====
-- Runs of the limiter, and its theorems at concrete inputs.
use srh_rs.Base.{◌+◌, ◌≡◌, refl, sym, true, List, [], ◌∷◌, text, lookup, text_eq, insert, arith}
use srh_rs.Base.Index.{put}
use srh_rs.Resp.{ℤ, negsuc}
use srh_rs.RateLimit.Whole.{whole_tokens}
use srh_rs.RateLimit.{
  Bucket, RateLimiter, probe, charge, with_max_buckets, access_at, evict_one, idle_eviction,
}
use srh_rs.RateLimit.Evict.{IsValid, Evicts, evict_one-Evicts}
use srh_rs.RateLimit.Settle.{Answers, access_of_known-Answers}
use srh_rs.RateLimit.Sweep.{accesses, sweeps, drains, run, Operation, run_of_new-IsValid}

-- Room for one bucket: the second credential evicts the first, which is in debt.
abbrev busy : List Operation
busy =
    accesses (text "a") (charge 5) 0
    ∷ accesses (text "a") probe 1
    ∷ accesses (text "b") (charge 1) 2
    ∷ drains
    ∷ sweeps (3 + idle_eviction)
    ∷ []

run_of_new-IsValid_example : IsValid (run whole_tokens (with_max_buckets whole_tokens 2 1) busy)
run_of_new-IsValid_example = run_of_new-IsValid whole_tokens 2 1 busy (omega arith)

abbrev indebted_a : Bucket ℤ
indebted_a = record {
  balance = negsuc 0;
  updated = 0;
  last_access = 0;
  order = 0;
  key = text "a";
  indebted = true;
}

abbrev one_debt : RateLimiter ℤ
one_debt = record (with_max_buckets whole_tokens 2 1) {
  buckets = record {
    entries = (text "a", indebted_a) ∷ [];
    lru = record { credit = []; debt = (0, text "a") ∷ []; next_order = 1 };
  };
}

charged_once :
    (run whole_tokens (with_max_buckets whole_tokens 2 1) (accesses (text "a") (charge 5) 0 ∷ []))
    ≡ one_debt
unfolding with_max_buckets access_at lookup insert put
charged_once = refl

access_of_known-Answers_example :
    Answers whole_tokens one_debt
      (text "a")
      indebted_a
      (charge 1)
      1
      (access_at whole_tokens one_debt (text "a") (charge 1) 1)
unfolding lookup with_max_buckets text_eq
access_of_known-Answers_example =
    access_of_known-Answers whole_tokens one_debt (text "a") indebted_a (charge 1) 1 (omega arith)
      refl

one_debt-IsValid : IsValid one_debt
one_debt-IsValid =
    rw (sym charged_once)
      (run_of_new-IsValid whole_tokens 2 1 (accesses (text "a") (charge 5) 0 ∷ []) (omega arith))

evict_one-Evicts_example : Evicts one_debt.buckets (evict_one one_debt.buckets)
evict_one-Evicts_example = evict_one-Evicts one_debt.buckets one_debt-IsValid.linked (omega arith)
