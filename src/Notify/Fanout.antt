-- ===== src/Notify/Fanout.antt =====
-- Every channel is notified, whatever the others answer.
use kscribe.Prelude.{
  Bool, List, Option, [], any_of, ap, append-nil, append_assoc, false, none, refl, some, sym, true,
  ◌++◌, ◌∙◌, ◌∷◌, ◌≡◌,
}
use kscribe.Errors.{Error}
use kscribe.Notify.{Notification, Notifier, add_error, join_errors, notify_each, multi}

-- neither of two errors, or an error
abbrev pub either : Option Error → Option Error → Bool
either none none = false
either none (some e) = true
either (some d) e = true

abbrev pub is_error : Option Error → Bool
is_error none = false
is_error (some e) = true

add_error-append :
    (e : Option Error) (before errs : List Error)
    → add_error e (before ++ errs) ≡ before ++ add_error e errs
add_error-append none before errs = refl
add_error-append (some e) before errs = append_assoc before errs (e ∷ [])

join_errors-append :
    (xs ys : List Error)
    → is_error (join_errors (xs ++ ys)) ≡ either (join_errors xs) (join_errors ys)
join_errors-append [] [] = refl
join_errors-append [] (y ∷ ys) = refl
join_errors-append (x ∷ xs) ys = refl

module _ {W : Type 0} where
  notify_each-append :
      (xs ys : List (Notifier W)) (n : Notification) (errs : List Error) (w : W)
      → notify_each (xs ++ ys) n errs w
        ≡ notify_each ys n (notify_each xs n errs w).0 (notify_each xs n errs w).1
  unfolding notify_each
  notify_each-append [] ys n errs w = refl
  notify_each-append (x ∷ xs) ys n errs w =
      notify_each-append xs ys n (add_error (x.notify n w).0 errs) (x.notify n w).1

  notify_each-from :
      (xs : List (Notifier W)) (n : Notification) (before errs : List Error) (w : W)
      → notify_each xs n (before ++ errs) w
        ≡ (before ++ (notify_each xs n errs w).0, (notify_each xs n errs w).1)
  unfolding notify_each
  notify_each-from [] n before errs w = refl
  notify_each-from (x ∷ xs) n before errs w =
      rw (add_error-append (x.notify n w).0 before errs)
        (notify_each-from xs n before (add_error (x.notify n w).0 errs) (x.notify n w).1)

  notify_each-group :
      (ys : List (Notifier W)) (n : Notification) (before : List Error) (w : W)
      → notify_each ys n before w ≡ (before ++ (notify_each ys n [] w).0, (notify_each ys n [] w).1)
  notify_each-group ys n before w =
      ap (λ errs. notify_each ys n errs w) (sym (append-nil before))
      ∙ notify_each-from ys n before [] w

  -- What each channel answers when all are notified in their order, and the state after the last.
  abbrev pub answers : List (Notifier W) → Notification → W → List (Option Error) × W
  answers [] n w = ([], w)
  answers (x ∷ xs) n w =
      let (later, w') = answers xs n (x.notify n w).1 in ((x.notify n w).0 ∷ later, w')

  -- an error that is there stays
  notify_each-set :
      (xs : List (Notifier W)) (n : Notification) (d : Error) (errs : List Error) (w : W)
      → is_error (join_errors (notify_each xs n (d ∷ errs) w).0) ≡ true
  unfolding notify_each
  notify_each-set [] n d errs w = refl
  notify_each-set (x ∷ xs) n d errs w =
      at_answer (x.notify n w).0 (λ later. notify_each-set xs n d later (x.notify n w).1)
    where
      at_answer :
          (e : Option Error)
          → ((later : List Error)
              → is_error (join_errors (notify_each xs n (d ∷ later) (x.notify n w).1).0) ≡ true)
          → is_error (join_errors (notify_each xs n (add_error e (d ∷ errs)) (x.notify n w).1).0)
            ≡ true
      at_answer none go = go errs
      at_answer (some e) go = go (errs ++ e ∷ [])

  notify_each-answers :
      (xs : List (Notifier W)) (n : Notification) (w : W)
      → ((notify_each xs n [] w).1 ≡ (answers xs n w).1)
        × (is_error (join_errors (notify_each xs n [] w).0) ≡ any_of is_error (answers xs n w).0)
  unfolding notify_each
  notify_each-answers [] n w = (refl, refl)
  notify_each-answers (x ∷ xs) n w =
      at_answer (x.notify n w).0 (notify_each-answers xs n (x.notify n w).1)
    where
      Agree : List Error → List (Option Error) → Type 0
      Agree errs given =
          ((notify_each xs n errs (x.notify n w).1).1 ≡ (answers xs n (x.notify n w).1).1)
          × (is_error (join_errors (notify_each xs n errs (x.notify n w).1).0)
              ≡ any_of is_error given)

      at_answer :
          (e : Option Error)
          → Agree [] (answers xs n (x.notify n w).1).0
          → Agree (add_error e []) (e ∷ (answers xs n (x.notify n w).1).0)
      at_answer none later = later
      at_answer (some e) later = (
        rw (notify_each-group xs n (e ∷ []) (x.notify n w).1) later.0,
        notify_each-set xs n e [] (x.notify n w).1,
      )

  -- Two groups of channels notified together: the second is notified in the state that the first leaves,
  -- whatever the first answered, and there is an error exactly where one of the groups had one.
  multi_groups :
      (xs ys : List (Notifier W)) (n : Notification) (w : W)
      → let (e, w1) = (multi xs).notify n w in
        let (e', w2) = (multi ys).notify n w1 in
        let (joined, w') = (multi (xs ++ ys)).notify n w in
        (w' ≡ w2) × (is_error joined ≡ either e e')
  unfolding multi
  multi_groups xs ys n w =
      rw
        (
          notify_each-append xs ys n [] w,
          notify_each-group ys n (notify_each xs n [] w).0 (notify_each xs n [] w).1,
        )
        (refl, join_errors-append _ _)

  -- Every channel is notified once, in its order and in the state that those before it leave, whatever they
  -- answer; the result is an error exactly when one of them had one.
  pub multi_continues :
      (xs : List (Notifier W)) (n : Notification) (w : W)
      → let (joined, w') = (multi xs).notify n w in
        (w' ≡ (answers xs n w).1) × (is_error joined ≡ any_of is_error (answers xs n w).0)
  unfolding multi
  multi_continues xs n w = notify_each-answers xs n w
