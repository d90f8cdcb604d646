-- ===== src/Core/CompVec/Invariant.antt =====
-- The ids of a component vector and the places that it keeps for reuse.
use bento_box.Base.{
  ℕ, suc, zero, ◌+◌, ◌≤◌, ◌<◌, ◌≡◌, ◌≢◌, refl, Bool, true, false, List, [], ◌∷◌, ◌++◌, Option, none,
  some, arith, length, get_elem?, set, if◌then◌else◌, length-append, length-set, get_elem?-set_self,
  get_elem?-set_ne, Option-cases, sym, ap, get_elem?-append_last, ◌⊎◌, inl, inr, nat_eqb,
}
use mathlib.Core.Path.{subst}
use bento_box.Base.Classes.{nat_eq}
use bento_box.Exec.{ok, ◌>>=◌}
use bento_box.Std.Map.{Map, lookup, insert}
use bento_box.Std.Map.Laws.{UniqueKeys, UniqueKeys-insert, lookup-insert_new}
use bento_box.Core.Component.{Component}
use bento_box.Core.CompVec.{CompVec, empty, id_mod, add_to_vec, add}

-- `i` stands in the queue of places for reuse.
abbrev pub Queued : ℕ → List ℕ → Type 0
Queued i [] = ⊥
Queued i (x ∷ xs) = (x ≡ i) ⊎ Queued i xs

-- A queue of distinct places.
abbrev pub Distinct : List ℕ → Type 0
Distinct [] = Unit
Distinct (x ∷ xs) = (Queued x xs → ⊥) × Distinct xs

module _ {A : Type 0} ⦃k : Component A⦄ where
  abbrev pub is_active_at : Option A → Bool
  is_active_at none = false
  is_active_at (some a) = k.is_active a

  abbrev pub active_at : List A → ℕ → Bool
  active_at xs i = is_active_at (get_elem? xs i)

  pub active_at-lt : (xs : List A) (i : ℕ) → active_at xs i ≡ true → i < length xs
  active_at-lt [] i h = cc
  active_at-lt (x ∷ xs) zero h = omega arith
  active_at-lt (x ∷ xs) (suc i) h = omega (arith, active_at-lt xs i h)

  pub record IsWellFormed (c : CompVec A) : Type 0 where
    -- an id in use was given out
    pub given : (id i : ℕ) → lookup id c.id_to_index ≡ some i → (0 < id) × (id ≤ c.last_id)
    -- it has a place, and the component there is active
    pub placed : (id i : ℕ) → lookup id c.id_to_index ≡ some i → active_at c.vec i ≡ true
    -- no two ids share a place
    pub apart :
        (id j i : ℕ) → lookup id c.id_to_index ≡ some i → lookup j c.id_to_index ≡ some i → id ≡ j
    -- a place for reuse exists, stands in the queue once, and no id has it
    pub free : (i : ℕ) → Queued i c.inactive_comp_idx → i < length c.vec
    pub unused : (id i : ℕ) → Queued i c.inactive_comp_idx → lookup id c.id_to_index ≢ some i
    pub distinct : Distinct c.inactive_comp_idx
    pub unique : UniqueKeys c.id_to_index

  pub empty-IsWellFormed : IsWellFormed empty
  unfolding lookup
  empty-IsWellFormed = record {
    given = λ id i h. absurd (ground arith);
    placed = λ id i h. absurd (ground arith);
    apart = λ id j i h h'. absurd (ground arith);
    free = λ i q. absurd q;
    unused = λ id i q h. q;
    distinct = tt;
    unique = tt;
  }

  abbrev pub state : ℕ → Map ℕ ℕ → List ℕ → List A → CompVec A
  state n m q xs = record { last_id = n; id_to_index = m; inactive_comp_idx = q; vec = xs }

  pub lookup-next : (c : CompVec A) → IsWellFormed c → lookup (c.last_id + 1) c.id_to_index ≡ none
  lookup-next c v = elim (Option-cases (lookup (c.last_id + 1) c.id_to_index)) [
    | inl e ↦ e
    | inr (i, e) ↦ absurd (omega (arith, v.given (c.last_id + 1) i e))
  ]

  -- The places of `ys` and the queue `q` are those of `c` once `val` stands at a place `p` that
  -- no id has.
  pub record IsRoom (c : CompVec A) (val : A) (p : ℕ) (q : List ℕ) (ys : List A) : Type 0 where
    pub other : (id : ℕ) → lookup id c.id_to_index ≢ some p
    pub keep : (i : ℕ) → i ≢ p → get_elem? ys i ≡ get_elem? c.vec i
    pub here : get_elem? ys p ≡ some val
    pub rest : (i : ℕ) → Queued i q → Queued i c.inactive_comp_idx × (i ≢ p)
    pub distinct : Distinct q
    pub longer : length c.vec ≤ length ys

  abbrev pub taken : CompVec A → ℕ → List ℕ → List A → CompVec A
  taken c p q ys = state (c.last_id + 1) (insert (c.last_id + 1) p c.id_to_index) q ys

  taken-IsWellFormed :
      (c : CompVec A) (val : A) (p : ℕ) (q : List ℕ) (ys : List A)
      → k.is_active val ≡ true
      → IsWellFormed c
      → IsRoom c val p q ys
      → IsWellFormed (taken c p q ys)
  taken-IsWellFormed c val p q ys active v r = record {
    given = λ id i h. ground (arith, new id, v.given id i);
    placed = λ id i h. ground (arith, new id, v.placed id i, r.keep i, r.other id, r.here);
    apart = λ id j i h h'. ground (arith, new id, new j, r.other id, r.other j, v.apart id j i);
    free = λ i h. omega (arith, v.free i (r.rest i h).0, r.longer);
    unused = λ id i h h'. ground (arith, new id, r.rest i h, v.unused id i (r.rest i h).0);
    distinct = r.distinct;
    unique = UniqueKeys-insert (c.last_id + 1) p c.id_to_index v.unique;
  }
    where
      new :
          (id : ℕ)
          → lookup id (insert (c.last_id + 1) p c.id_to_index)
            ≡ (if nat_eqb (c.last_id + 1) id then some p else lookup id c.id_to_index)
      new id = lookup-insert_new (c.last_id + 1) id p c.id_to_index (lookup-next c v)

  get_elem?-append_ne :
      (xs : List A) (a : A) (i : ℕ) → i ≢ length xs → get_elem? (xs ++ a ∷ []) i ≡ get_elem? xs i
  get_elem?-append_ne [] a zero h = absurd (h refl)
  get_elem?-append_ne [] a (suc i) h = refl
  get_elem?-append_ne (x ∷ xs) a zero h = refl
  get_elem?-append_ne (x ∷ xs) a (suc i) h = get_elem?-append_ne xs a i (λ e. h (ap suc e))

  -- `add` finds such a place, behind the end or in the queue, and never throws.
  abbrev pub Adds : CompVec A → A → Type 0
  Adds c val =
      (p : ℕ) × (q : List ℕ) × (ys : List A) × (add val c ≡ (ok (c.last_id + 1), taken c p q ys))
      × IsRoom c val p q ys

  Adds-at :
      (n : ℕ) (m : Map ℕ ℕ) (q : List ℕ) (xs : List A) (val : A)
      → IsWellFormed (state n m q xs)
      → n + 1 < id_mod
      → Adds (state n m q xs) val
  unfolding add add_to_vec ◌>>=◌
  Adds-at n m [] xs val v small = (
    length xs,
    [],
    xs ++ val ∷ [],
    ground arith,
    record {
      other =
          λ id h. absurd (omega (arith, active_at-lt xs (length xs) (v.placed id (length xs) h)));
      keep = λ i h. get_elem?-append_ne xs val i h;
      here = get_elem?-append_last xs val;
      rest = λ i h. absurd h;
      distinct = tt;
      longer = omega (arith, length-append xs (val ∷ []));
    },
  )
  Adds-at n m (i ∷ q) xs val v small = (
    i,
    q,
    set xs i val,
    ground (arith, v.free i (inl refl)),
    record {
      other = λ id. v.unused id i (inl refl);
      keep = λ j h. get_elem?-set_ne xs i j val (λ e. h (sym e));
      here = get_elem?-set_self xs i val (v.free i (inl refl));
      rest = λ j h. (inr h, λ e. v.distinct.0 (subst (λ t. Queued t q) e h));
      distinct = v.distinct.1;
      longer = omega (arith, length-set xs i val);
    },
  )

  pub adds : (c : CompVec A) (val : A) → IsWellFormed c → c.last_id + 1 < id_mod → Adds c val
  adds c val v small = Adds-at c.last_id c.id_to_index c.inactive_comp_idx c.vec val v small

  -- Adding an active component to a well-formed vector, while ids are left, keeps it well-formed.
  pub add-IsWellFormed :
      (c : CompVec A) (val : A)
      → k.is_active val ≡ true
      → IsWellFormed c
      → c.last_id + 1 < id_mod
      → IsWellFormed (add val c).1
  add-IsWellFormed c val active v small =
      let (p, q, ys, e, r) = adds c val v small in rw e (taken-IsWellFormed c val p q ys active v r)
