-- ===== src/Limiter/Tests.antt =====
-- Runs of the limiter, and its theorems at concrete inputs.
use kscribe.Prelude.{List, [], arith, count_if, ltb, refl, some, ℕ, ℤ, ◌∷◌, ◌≡◌, ◌≤◌}
use kscribe.Limiter.{RateLimiter, is_recent, allow_capped, allow, allow_all}
use kscribe.Limiter.Window.{in_window, starts_capped, admits_below_limit}

abbrev two_per_ten : RateLimiter
two_per_ten = record { limit = ℤ.pos 2; window = 10; starts = [] }

abbrev asked : List ℕ
asked = 1 ∷ 2 ∷ 3 ∷ 11 ∷ 12 ∷ []

third_waits : (allow_all (some two_per_ten) [] asked).1 ≡ 1 ∷ 2 ∷ 11 ∷ 12 ∷ []
unfolding allow_all allow allow_capped
third_waits = refl

starts_capped_example : count_if (in_window 10 11) (allow_all (some two_per_ten) [] asked).1 ≤ 2
starts_capped_example =
    starts_capped two_per_ten asked refl refl (omega arith)
      (omega arith, (omega arith, (omega arith, (omega arith, (omega arith, tt))))) 11

admits_below_limit_example :
    (allow (allow_all (some two_per_ten) [] asked).0 13).1
    ≡ ltb (count_if (is_recent 10 13) (allow_all (some two_per_ten) [] asked).1) 2
admits_below_limit_example =
    admits_below_limit two_per_ten asked refl refl (omega arith)
      (omega arith, (omega arith, (omega arith, (omega arith, (omega arith, tt))))) 13 (omega arith)
