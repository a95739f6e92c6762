-- ===== src/Dedup/Tests.antt =====
-- The theorems of the deduper at concrete inputs.
use kscribe.Dedup.Refinement.{answers, ideal_answers, answers-Ideal}
use kscribe.Prelude.{[], arith, false, insert, lookup, none, refl, true, ℤ, ◌∷◌, ◌≡◌}
use kscribe.Dedup.{Deduper, should_process, new_deduper, sweep}

abbrev ten_ticks : Deduper
ten_ticks = record { ttl = 10; seen = [] }

first_accepted : (should_process ten_ticks "a" 5).1 ≡ true
unfolding should_process lookup
first_accepted = refl

answers-Ideal_example :
    answers (new_deduper (ℤ.pos 10)) (("a", 5) ∷ ("a", 9) ∷ ("b", 9) ∷ ("a", 15) ∷ [])
    ≡ ideal_answers
        (new_deduper (ℤ.pos 10)).ttl
        (λ key. none)
        (("a", 5) ∷ ("a", 9) ∷ ("b", 9) ∷ ("a", 15) ∷ [])
answers-Ideal_example =
    answers-Ideal (ℤ.pos 10) (("a", 5) ∷ ("a", 9) ∷ ("b", 9) ∷ ("a", 15) ∷ [])
      (omega arith, (omega arith, (omega arith, (omega arith, tt))))

four_answers :
    answers (new_deduper (ℤ.pos 10)) (("a", 5) ∷ ("a", 9) ∷ ("b", 9) ∷ ("a", 15) ∷ [])
    ≡ true ∷ false ∷ true ∷ true ∷ []
unfolding answers new_deduper should_process lookup insert sweep
four_answers = refl
