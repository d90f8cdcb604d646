-- ===== src/Exec/Matches.antt =====
-- Two programs over related states that end in the same way, and in related states: one rule for
-- each way to build them.
use bento_box.Base.{◌≡◌, refl, Bool, true, false, if◌then◌else◌}
use mathlib.Core.Path.{subst}
use bento_box.Exec.{Error, Result, ok, err, undefined, Exec, pure, raise, lift, after, ◌>>=◌}

module _ {S T : Type 0} where
  pub record Matches {A : Type 0} (R : S → T → Type 0) (code : Exec S A) (spec : Exec T A)
      : Type 0 where
    pub at : (s : S) (t : T) → R s t → ((code s).0 ≡ (spec t).0) × R (code s).1 (spec t).1

module _ {S T : Type 0} {R : S → T → Type 0} where
  pub Matches-lift : {A : Type 0} (outcome : Result A) → Matches R (lift outcome) (lift outcome)
  unfolding lift
  Matches-lift outcome = record { at = λ s t h. (refl, h) }

  pub Matches-pure : {A : Type 0} (a : A) → Matches R (pure a) (pure a)
  unfolding pure
  Matches-pure a = record { at = λ s t h. (refl, h) }

  pub Matches-raise : {A : Type 0} (e : Error) → Matches R (raise {A = A} e) (raise e)
  unfolding raise
  Matches-raise e = record { at = λ s t h. (refl, h) }

  pub Matches-bind :
      {A B : Type 0} (first : Exec S A) (first' : Exec T A) (next : A → Exec S B)
      (next' : A → Exec T B)
      → Matches R first first'
      → ((a : A) → Matches R (next a) (next' a))
      → Matches R (first >>= next) (first' >>= next')
  unfolding ◌>>=◌
  Matches-bind {A} {B} first first' next next' m ms = record {
    at = λ s t h.
        let (same, related) = m.at s t h in
        subst
          (λ r.
            ((after next (first s)).0 ≡ (after next' (r, (first' t).1)).0)
            × R (after next (first s)).1 (after next' (r, (first' t).1)).1)
          same (onward (first s).0 (first s).1 (first' t).1 related);
  }
    where
      onward :
          (r : Result A) (s : S) (t : T)
          → R s t
          → ((after next (r, s)).0 ≡ (after next' (r, t)).0)
            × R (after next (r, s)).1 (after next' (r, t)).1
      onward (ok a) s t h = (ms a).at s t h
      onward (err e) s t h = (refl, h)
      onward undefined s t h = (refl, h)

  pub Matches-if :
      {A : Type 0} (test : Bool) (m n : Exec S A) (m' n' : Exec T A)
      → Matches R m m'
      → Matches R n n'
      → Matches R (if test then m else n) (if test then m' else n')
  Matches-if true m n m' n' k l = k
  Matches-if false m n m' n' k l = l

pub ruleset matches_rules = (Matches-bind, Matches-if, Matches-lift, Matches-raise, Matches-pure)
