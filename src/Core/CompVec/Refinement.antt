-- ===== src/Core/CompVec/Refinement.antt =====
-- What a component vector promises: a finite map from ids to components, in which an id is never
-- given out twice. The places and their reuse are not visible.
use bento_box.Base.{
  ℕ, ◌+◌, ◌<◌, ◌≡◌, refl, List, Option, none, some, arith, get_elem?, if◌then◌else◌, Option-cases,
  inl, inr, nat_eqb, get_elem?-set_ne,
}
use bento_box.Base.Classes.{nat_eq}
use bento_box.Exec.{Result, ok, err, map_at, inactive_component, or_raise}
use bento_box.Std.Map.{lookup, is_some, at as map_find}
use bento_box.Std.Map.Laws.{lookup-without, lookup-insert_new}
use bento_box.Core.Component.{Component}
use bento_box.Core.CompVec.{CompVec, id_mod, add, remove, at}
use bento_box.Core.CompVec.Invariant.{IsWellFormed, IsRoom, lookup-next, taken, adds}
use bento_box.Core.CompVec.Removal.{removes, dropped, remove_missing}

-- The map that a vector stands for.
abbrev pub at_index : {A : Type 0} → List A → Option ℕ → Option A
at_index xs none = none
at_index xs (some i) = get_elem? xs i

abbrev pub view : {A : Type 0} → CompVec A → ℕ → Option A
view c id = at_index c.vec (lookup id c.id_to_index)

module _ {A : Type 0} ⦃k : Component A⦄ where
  at_found :
      (c : CompVec A) (id : ℕ) (o : Option ℕ)
      → lookup id c.id_to_index ≡ o
      → IsWellFormed c
      → at c id ≡ or_raise map_at (view c id)
  unfolding at map_find
  at_found c id none e v = rw e refl
  at_found c id (some i) e v = ground (arith, v.placed id i e)

  -- at is a lookup in the map that a well-formed vector stands for: it throws for an id that is not
  -- in use, and the check of activity never fails.
  pub at-view : (c : CompVec A) (id : ℕ) → IsWellFormed c → at c id ≡ or_raise map_at (view c id)
  at-view c id v = at_found c id (lookup id c.id_to_index) refl v

  view-taken :
      (c : CompVec A) (val : A) (p : ℕ) (q : List ℕ) (ys : List A) (j : ℕ) (o : Option ℕ)
      → IsWellFormed c
      → IsRoom c val p q ys
      → lookup j c.id_to_index ≡ o
      → view (taken c p q ys) j ≡ (if nat_eqb (c.last_id + 1) j then some val else view c j)
  view-taken c val p q ys j none v r e =
      ground (arith, lookup-insert_new (c.last_id + 1) j p c.id_to_index (lookup-next c v), r.here)
  view-taken c val p q ys j (some i) v r e = ground (
    arith,
    lookup-insert_new (c.last_id + 1) j p c.id_to_index (lookup-next c v),
    r.here,
    r.keep i,
    r.other j,
  )

  -- On a well-formed vector, while ids are left, add returns the next id, which was not in use; the
  -- new component then stands behind it, and behind every other id what stood there before.
  pub view-add :
      (c : CompVec A) (val : A)
      → IsWellFormed c
      → c.last_id + 1 < id_mod
      → ((add val c).0 ≡ ok (c.last_id + 1))
        × (view c (c.last_id + 1) ≡ none)
        × ((j : ℕ)
            → view (add val c).1 j ≡ (if nat_eqb (c.last_id + 1) j then some val else view c j))
  view-add c val v small =
      let (p, q, ys, e, r) = adds c val v small in
      rw e (
        refl,
        rw (lookup-next c v) refl,
        λ j. view-taken c val p q ys j (lookup j c.id_to_index) v r refl,
      )

  -- What at makes of a component that it finds.
  abbrev pub checked : A → Result A
  checked comp = if k.is_active comp then ok comp else err inactive_component

  at-taken :
      (c : CompVec A) (val : A) (p : ℕ) (q : List ℕ) (ys : List A) (j : ℕ) (o : Option ℕ)
      → IsWellFormed c
      → IsRoom c val p q ys
      → lookup j c.id_to_index ≡ o
      → at (taken c p q ys) j ≡ (if nat_eqb (c.last_id + 1) j then checked val else at c j)
  unfolding at map_find
  at-taken c val p q ys j none v r e =
      ground (arith, lookup-insert_new (c.last_id + 1) j p c.id_to_index (lookup-next c v), r.here)
  at-taken c val p q ys j (some i) v r e = ground (
    arith,
    lookup-insert_new (c.last_id + 1) j p c.id_to_index (lookup-next c v),
    r.here,
    r.keep i,
    r.other j,
  )

  -- On a well-formed vector, while ids are left, add returns the next id, at which at threw for a
  -- missing key; from then on at gives the new component there if that is active and throws if it
  -- is not, and does at every other id what it did before.
  pub at-add :
      (c : CompVec A) (val : A)
      → IsWellFormed c
      → c.last_id + 1 < id_mod
      → ((add val c).0 ≡ ok (c.last_id + 1))
        × (at c (c.last_id + 1) ≡ err map_at)
        × ((j : ℕ)
            → at (add val c).1 j ≡ (if nat_eqb (c.last_id + 1) j then checked val else at c j))
  unfolding at map_find
  at-add c val v small =
      let (p, q, ys, e, r) = adds c val v small in
      rw e (
        refl,
        rw (lookup-next c v) refl,
        λ j. at-taken c val p q ys j (lookup j c.id_to_index) v r refl,
      )

  view-dropped :
      (c : CompVec A) (id i j : ℕ) (a : A) (o : Option ℕ)
      → IsWellFormed c
      → lookup id c.id_to_index ≡ some i
      → lookup j c.id_to_index ≡ o
      → view (dropped c id i a) j ≡ (if nat_eqb id j then none else view c j)
  view-dropped c id i j a none v h e = ground (arith, lookup-without id j c.id_to_index)
  view-dropped c id i j a (some p) v h e = ground (
    arith,
    lookup-without id j c.id_to_index,
    v.apart id j i,
    get_elem?-set_ne c.vec i p (k.deactivate a),
  )

  view_missing :
      (c : CompVec A) (id j : ℕ)
      → lookup id c.id_to_index ≡ none
      → view c j ≡ (if nat_eqb id j then none else view c j)
  view_missing c id j h = ground arith

  -- On a well-formed vector, remove fails exactly on an id that is not in use; afterwards that id
  -- reads nothing, and every other id reads what it read before.
  pub view-remove :
      (c : CompVec A) (id : ℕ)
      → IsWellFormed c
      → ((remove id c).0 ≡ (if is_some (view c id) then ok tt else err map_at))
        × ((j : ℕ) → view (remove id c).1 j ≡ (if nat_eqb id j then none else view c j))
  view-remove c id v = elim (Option-cases (lookup id c.id_to_index)) [
    | inl e ↦ rw (remove_missing c id e) (rw e refl, λ j. view_missing c id j e)
    | inr (i, e) ↦
        let (a, f, r) = removes c id i v e in
        rw r (ground arith, λ j. view-dropped c id i j a (lookup j c.id_to_index) v e refl)
  ]
