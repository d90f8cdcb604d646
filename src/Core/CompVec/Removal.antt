-- ===== src/Core/CompVec/Removal.antt =====
-- `CompVec::remove` keeps a component vector well-formed.
use bento_box.Base.{
  ℕ, ◌≡◌, refl, true, List, [], ◌∷◌, ◌++◌, Option, none, some, arith, get_elem?, set, length-set,
  get_elem?-set_ne, Option-cases, ◌⊎◌, inl, inr, sym,
}
use bento_box.Base.Classes.{nat_eq}
use bento_box.Exec.{ok, err, map_at, ◌>>=◌}
use bento_box.Std.Map.{lookup, without, at as map_find}
use bento_box.Std.Map.Laws.{UniqueKeys-without, lookup-without}
use bento_box.Core.Component.{Component}
use bento_box.Core.CompVec.{CompVec, remove}
use bento_box.Core.CompVec.Invariant.{
  IsWellFormed, Queued, Distinct, is_active_at, active_at-lt, state,
}

Queued-append : (j i : ℕ) (q : List ℕ) → Queued j (q ++ i ∷ []) → Queued j q ⊎ (i ≡ j)
Queued-append j i [] (inl e) = inr e
Queued-append j i [] (inr e) = absurd e
Queued-append j i (x ∷ q) (inl e) = inl (inl e)
Queued-append j i (x ∷ q) (inr h) = elim (Queued-append j i q h) [
  | inl a ↦ inl (inr a)
  | inr e ↦ inr e
]

Distinct-append : (i : ℕ) (q : List ℕ) → (Queued i q → ⊥) → Distinct q → Distinct (q ++ i ∷ [])
Distinct-append i [] h d = (λ a. a, tt)
Distinct-append i (x ∷ q) h (a, d) = (apart, Distinct-append i q (λ b. h (inr b)) d)
  where
    apart : Queued x (q ++ i ∷ []) → ⊥
    apart b = elim (Queued-append x i q b) [ inl c ↦ a c | inr e ↦ h (inl (sym e)) ]

module _ {A : Type 0} ⦃k : Component A⦄ where
  abbrev pub dropped : CompVec A → ℕ → ℕ → A → CompVec A
  dropped c id i a =
      state c.last_id (without id c.id_to_index) (c.inactive_comp_idx ++ i ∷ [])
        (set c.vec i (k.deactivate a))

  found_at : (o : Option A) → is_active_at o ≡ true → (a : A) × (o ≡ some a)
  found_at none h = cc
  found_at (some a) h = (a, refl)

  -- What `remove` does with an id that is in use.
  pub removes :
      (c : CompVec A) (id i : ℕ)
      → IsWellFormed c
      → lookup id c.id_to_index ≡ some i
      → (a : A) × (get_elem? c.vec i ≡ some a) × (remove id c ≡ (ok tt, dropped c id i a))
  unfolding remove ◌>>=◌ map_find
  removes c id i v h =
      let (a, e) = found_at (get_elem? c.vec i) (v.placed id i h) in (a, e, ground arith)

  pub remove_missing :
      (c : CompVec A) (id : ℕ) → lookup id c.id_to_index ≡ none → remove id c ≡ (err map_at, c)
  unfolding remove ◌>>=◌ map_find
  remove_missing c id h = rw h refl

  dropped-IsWellFormed :
      (c : CompVec A) (id i : ℕ) (a : A)
      → IsWellFormed c
      → lookup id c.id_to_index ≡ some i
      → IsWellFormed (dropped c id i a)
  dropped-IsWellFormed c id i a v h = record {
    given = λ j p e. ground (arith, lookup-without id j c.id_to_index, v.given j p);
    placed = λ j p e. ground (
      arith,
      lookup-without id j c.id_to_index,
      v.placed j p,
      v.apart id j i,
      get_elem?-set_ne c.vec i p (k.deactivate a),
    );
    apart = λ j l p e e'. ground (
      arith,
      lookup-without id j c.id_to_index,
      lookup-without id l c.id_to_index,
      v.apart j l p,
    );
    free = λ p b. elim (Queued-append p i c.inactive_comp_idx b) [
      | inl d ↦ omega (arith, length-set c.vec i (k.deactivate a), v.free p d)
      | inr e ↦
          omega (arith, length-set c.vec i (k.deactivate a), active_at-lt c.vec i (v.placed id i h))
    ];
    unused = λ j p b e. elim (Queued-append p i c.inactive_comp_idx b) [
      | inl d ↦ ground (arith, lookup-without id j c.id_to_index, v.unused j p d)
      | inr d ↦ ground (arith, lookup-without id j c.id_to_index, v.apart id j i)
    ];
    distinct = Distinct-append i c.inactive_comp_idx (λ d. v.unused id i d h) v.distinct;
    unique = UniqueKeys-without id c.id_to_index v.unique;
  }

  -- Removing any id, in use or not, keeps a well-formed vector well-formed.
  pub remove-IsWellFormed : (c : CompVec A) (id : ℕ) → IsWellFormed c → IsWellFormed (remove id c).1
  remove-IsWellFormed c id v = elim (Option-cases (lookup id c.id_to_index)) [
    | inl e ↦ rw (remove_missing c id e) v
    | inr (i, e) ↦ let (a, f, r) = removes c id i v e in rw r (dropped-IsWellFormed c id i a v e)
  ]
