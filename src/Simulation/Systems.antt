-- ===== src/Simulation/Systems.antt =====
-- The ids that the constructor of a simulation gives to its systems.
use bento_box.Base.{
  ℕ, ◌+◌, ◌%◌, ◌≤◌, ◌<◌, ◌≡◌, refl, true, false, List, [], ◌∷◌, arith, nat_eqb, length,
  if◌then◌else◌, Bool-cases, inl, inr, ◌⊎◌,
}
use bento_box.Base.Classes.{nat_eq}
use bento_box.Std.Set
use bento_box.Proto.Messages.{SystemDef}
use bento_box.Index.EntityIndex.{entity_mod}
use bento_box.Simulation.{max_system_id, set_system_ids}

abbrev pub ids_of : List SystemDef → List ℕ
ids_of [] = []
ids_of (system ∷ rest) = system.id ∷ ids_of rest

-- The ids that the definition sets.
abbrev pub given_ids : List SystemDef → List ℕ
given_ids [] = []
given_ids (system ∷ rest) =
    if nat_eqb system.id 0 then given_ids rest else system.id ∷ given_ids rest

max_system_id-≤ :
    (systems : List SystemDef) (m : ℕ)
    → (m ≤ max_system_id systems m)
      × ((j : ℕ) → Set.member j (given_ids systems) ≡ true → j ≤ max_system_id systems m)
unfolding max_system_id Set.member
max_system_id-≤ [] m = (omega arith, λ j h. absurd (ground arith))
max_system_id-≤ (system ∷ rest) m = (
  ground (arith, (max_system_id-≤ rest m).0, (max_system_id-≤ rest system.id).0),
  λ j h. ground (
    arith,
    (max_system_id-≤ rest m).0,
    (max_system_id-≤ rest system.id).0,
    (max_system_id-≤ rest m).1 j,
    (max_system_id-≤ rest system.id).1 j,
  ),
)

-- An id of the result was set by the definition or is new.
set_system_ids-new :
    (systems : List SystemDef) (m j : ℕ)
    → m + length systems < entity_mod
    → Set.member j (ids_of (set_system_ids systems m)) ≡ true
    → (Set.member j (given_ids systems) ≡ true) ⊎ (m < j)
unfolding set_system_ids Set.member
set_system_ids-new [] m j small h = absurd (ground arith)
set_system_ids-new (system ∷ rest) m j small h = ground (
  arith,
  set_system_ids-new rest m j (omega arith),
  set_system_ids-new rest (m + 1) j (omega arith),
)

-- An id up to `m` that the definition does not set is not given out.
set_system_ids-old :
    (systems : List SystemDef) (m j : ℕ)
    → m + length systems < entity_mod
    → Set.member j (given_ids systems) ≡ false
    → j ≤ m
    → Set.member j (ids_of (set_system_ids systems m)) ≡ false
set_system_ids-old systems m j small missing low =
    elim (Bool-cases (Set.member j (ids_of (set_system_ids systems m)))) [
      | inl h ↦ absurd (elim (set_system_ids-new systems m j small h) [
        | inl given ↦ ground (arith, given, missing)
        | inr high ↦ omega arith
      ])
      | inr h ↦ h
    ]

-- No id that the definition sets is above `m`.
abbrev pub Bounded : List SystemDef → ℕ → Type 0
Bounded systems m = (j : ℕ) → Set.member j (given_ids systems) ≡ true → j ≤ m

Bounded-rest :
    (system : SystemDef) (rest : List SystemDef) (m : ℕ)
    → Bounded (system ∷ rest) m
    → Bounded rest m
unfolding Set.member
Bounded-rest system rest m b j h = ground (arith, b j)

Bounded-above :
    (systems : List SystemDef) (m : ℕ)
    → Bounded systems m
    → Set.member (m + 1) (given_ids systems) ≡ false
Bounded-above systems m b = elim (Bool-cases (Set.member (m + 1) (given_ids systems))) [
  | inl h ↦ absurd (omega (arith, b (m + 1) h))
  | inr h ↦ h
]

given_first :
    (system : SystemDef) (rest : List SystemDef)
    → nat_eqb system.id 0 ≡ false
    → Set.member system.id (given_ids (system ∷ rest)) ≡ true
unfolding Set.member
given_first system rest set = ground arith

-- Zero is never given out.
set_system_ids-zero :
    (systems : List SystemDef) (m : ℕ)
    → m + length systems < entity_mod
    → Set.member 0 (ids_of (set_system_ids systems m)) ≡ false
unfolding set_system_ids Set.member
set_system_ids-zero [] m small = refl
set_system_ids-zero (system ∷ rest) m small = elim (Bool-cases (nat_eqb system.id 0)) [
  | inl unset ↦
      let e : ((m + 1) % entity_mod) ≡ m + 1 = ground arith in
      rw (unset, e) (ground (arith, set_system_ids-zero rest (m + 1) (omega arith)))
  | inr set ↦ rw set (ground (arith, set_system_ids-zero rest m (omega arith)))
]

IsDistinct-from :
    (systems : List SystemDef) (m : ℕ)
    → m + length systems < entity_mod
    → Bounded systems m
    → Set.IsDistinct (given_ids systems)
    → Set.IsDistinct (ids_of (set_system_ids systems m))
unfolding set_system_ids
IsDistinct-from [] m small b d = tt
IsDistinct-from (system ∷ rest) m small b d = elim (Bool-cases (nat_eqb system.id 0)) [
  | inl unset ↦
      let e : ((m + 1) % entity_mod) ≡ m + 1 = ground arith in
      let b' : Bounded rest m = Bounded-rest system rest m b in
      rw (unset, e)
        (
          set_system_ids-old rest (m + 1) (m + 1) (omega arith) (Bounded-above rest m b')
              (omega arith),
          IsDistinct-from rest (m + 1) (omega arith) (λ j h. omega (arith, b' j h)) (rw unset at d),
        )
  | inr set ↦
      let b' : Bounded rest m = Bounded-rest system rest m b in
      let (missing, ds) : (Set.member system.id (given_ids rest) ≡ false)
          × Set.IsDistinct (given_ids rest) =
        rw set at d in
      rw set (
        set_system_ids-old rest m system.id (omega arith) missing
            (b system.id (given_first system rest set)),
        IsDistinct-from rest m (omega arith) b' ds,
      )
]

-- If the ids that the definition sets are distinct, and there are ids left for the other systems,
-- then all systems have distinct ids afterwards, and none is zero.
pub set_system_ids-IsDistinct :
    (systems : List SystemDef)
    → max_system_id systems 0 + length systems < entity_mod
    → Set.IsDistinct (given_ids systems)
    → Set.IsDistinct (ids_of (set_system_ids systems (max_system_id systems 0)))
      × (Set.member 0 (ids_of (set_system_ids systems (max_system_id systems 0))) ≡ false)
set_system_ids-IsDistinct systems small d = (
  IsDistinct-from systems _ small (max_system_id-≤ systems 0).1 d,
  set_system_ids-zero systems _ small,
)
