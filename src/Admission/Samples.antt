-- ===== src/Admission/Samples.antt =====
-- The limits of internal/admission/admission.go at concrete inputs, with thousandths for floats.
use omni_logging.Common.{ℕ, refl, [], ◌∷◌, codes}
use omni_logging.Common.Float64.{thousandths}
use omni_logging.Admission.{Limits, Limiter, allow, record_usage}
use omni_logging.Admission.Fairness.{IsBounded, IsBounded-step}

abbrev limits : Limits ℕ
limits = record { rate_per_sec = 2000; burst = 3; daily_events = 10; daily_bytes = 0 }

-- A limiter that knows one key with an empty bucket.
abbrev busy : Limiter ℕ
busy = record {
  limits = limits;
  burst = 3000;
  keys = (codes "a", record { tokens = 0; last = 5; day = 0; events = 1; bytes = 1 }) ∷ [];
}

IsBounded-step_example :
    IsBounded thousandths (allow thousandths 700000000 (codes "a") 1 busy).0
    × IsBounded thousandths (record_usage thousandths 700000000 (codes "a") 4 1 busy)
IsBounded-step_example = IsBounded-step thousandths 700000000 (codes "a") 4 1 busy (refl, tt)
