-- ===== src/Exec/Keeps.antt =====
-- Invariants of stateful code, one rule for each way to build it. The invariant holds afterwards
-- however the code ends.
use bento_box.Base.{Bool, true, false, if◌then◌else◌}
use bento_box.Exec.{
  Error, Result, ok, err, undefined, Exec, pure, raise, lift, gets, asks, after, ◌>>=◌,
}

pub record Keeps {S A : Type 0} (P : S → Type 0) (code : Exec S A) : Type 0 where
  pub at : (start : S) → P start → P (code start).1

module _ {S : Type 0} {P : S → Type 0} where
  -- code that only reads
  pub Keeps-asks : {A : Type 0} (read : S → Result A) → Keeps P (asks read)
  unfolding asks
  Keeps-asks read = record { at = λ start holds. holds }

  pub Keeps-lift : {A : Type 0} (outcome : Result A) → Keeps P (lift outcome)
  unfolding lift
  Keeps-lift outcome = record { at = λ start holds. holds }

  pub Keeps-bind :
      {A B : Type 0} (first : Exec S A) (next : A → Exec S B)
      → Keeps P first
      → ((a : A) → Keeps P (next a))
      → Keeps P (first >>= next)
  unfolding ◌>>=◌
  Keeps-bind {A} first next k ks = record {
    at = λ start h. then_keeps (first start) (k.at start h);
  }
    where
      then_keeps : (r : Result A × S) → P r.1 → P (after next r).1
      then_keeps (ok a, now) h = (ks a).at now h
      then_keeps (err e, now) h = h
      then_keeps (undefined, now) h = h

  pub Keeps-if :
      {A : Type 0} (test : Bool) (m n : Exec S A)
      → Keeps P m
      → Keeps P n
      → Keeps P (if test then m else n)
  Keeps-if true m n k l = k
  Keeps-if false m n k l = l

  pub Keeps-raise : {A : Type 0} (e : Error) → Keeps P (raise {A = A} e)
  unfolding raise lift
  Keeps-raise e = Keeps-lift (err e)

  pub Keeps-gets : {A : Type 0} (read : S → A) → Keeps P (gets read)
  unfolding gets asks
  Keeps-gets read = Keeps-asks (λ start. ok (read start))

  pub Keeps-pure : {A : Type 0} (a : A) → Keeps P (pure a)
  unfolding pure lift
  Keeps-pure a = Keeps-lift (ok a)

pub ruleset keeps_rules =
    (Keeps-bind, Keeps-if, Keeps-asks, Keeps-gets, Keeps-lift, Keeps-raise, Keeps-pure)
