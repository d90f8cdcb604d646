-- ===== src/Simulation/Entities.antt =====
-- The ids that the constructor of a simulation gives to its entities.
use bento_box.Base.{
  ℕ, suc, ◌+◌, ◌%◌, ◌∙◌, ◌⊎◌, ltb, if◌then◌else◌, ◌||◌, ◌≤◌, ◌<◌, ◌≡◌, refl, true, false, List, [],
  ◌∷◌, Option, some, arith, nat_eqb, Bool-cases, inl, inr,
}
use bento_box.Base.Classes.{nat_eq, pair_eq}
use bento_box.Std.Map.{Map, lookup, insert, is_some}
use bento_box.Std.Map.Laws.{lookup-insert, contains-eq-is_some}
use bento_box.Std.Set
use bento_box.Core.ComponentStore.{CompStoreId, ComponentSet}
use bento_box.Index.EntityIndex
use bento_box.Index.EntityIndex.{
  EntityIndex, entity_mod, add_entity_id, set_entity_ids, set_ids_loop,
}
use bento_box.Index.EntityIndex.Entities.{has, is_known}
use bento_box.Simulation.{fresh_entity_id, fresh_fuel}

-- Every entity that is known has an id below the next one.
pub record IsAbove (index : EntityIndex) : Type 0 where
  pub above : (id : ℕ) → is_known index id ≡ true → id < index.next_entity_id

-- `r` is the outcome of making a new entity.
pub record Fresh (index : EntityIndex) (r : Option (ℕ × EntityIndex)) : Type 0 where
  pub id : ℕ
  pub next : EntityIndex
  pub returned : r ≡ some (id, next)
  pub non_zero : 0 < id
  pub unused : is_known index id ≡ false
  pub known : is_known next id ≡ true
  pub kept : (j : ℕ) (c : CompStoreId) → has next j c ≡ has index j c
  pub still_above : IsAbove next

-- The index after a new entity.
abbrev pub added : EntityIndex → EntityIndex
added index = (add_entity_id index).1

pub is_known-add :
    (index : EntityIndex) (j : ℕ)
    → is_known (added index) j ≡ (is_known index j || nat_eqb index.next_entity_id j)
unfolding add_entity_id
is_known-add index j = ground (
  arith,
  lookup-insert index.next_entity_id j [] index.entity_comp_map,
  contains-eq-is_some index.next_entity_id index.entity_comp_map,
)

pub has-add :
    (index : EntityIndex) (j : ℕ) (c : CompStoreId) → has (added index) j c ≡ has index j c
unfolding add_entity_id Set.member
has-add index j c = ground (
  arith,
  lookup-insert index.next_entity_id j [] index.entity_comp_map,
  contains-eq-is_some index.next_entity_id index.entity_comp_map,
)

next-add :
    (index : EntityIndex)
    → index.next_entity_id + 1 < entity_mod
    → (added index).next_entity_id ≡ index.next_entity_id + 1
unfolding add_entity_id
next-add index small = ground arith

add-IsAbove :
    (index : EntityIndex)
    → index.next_entity_id + 1 < entity_mod
    → IsAbove index
    → IsAbove (added index)
add-IsAbove index small a = record {
  above = λ j h. ground (arith, is_known-add index j, next-add index small, a.above j);
}

-- An entity that is made in one round, under an id that is not zero.
pub one_round :
    (n : ℕ) (index : EntityIndex)
    → 0 < index.next_entity_id
    → fresh_entity_id (suc n) index ≡ some (index.next_entity_id, added index)
unfolding fresh_entity_id add_entity_id
one_round n index h = ground arith

pub two_rounds :
    (n : ℕ) (index : EntityIndex)
    → index.next_entity_id ≡ 0
    → fresh_entity_id (suc n) index ≡ fresh_entity_id n (added index)
unfolding fresh_entity_id add_entity_id
two_rounds n index h = ground arith

unknown_next : (index : EntityIndex) → IsAbove index → is_known index index.next_entity_id ≡ false
unknown_next index a = elim (Bool-cases (is_known index index.next_entity_id)) [
  | inl h ↦ absurd (omega (arith, a.above index.next_entity_id h))
  | inr h ↦ h
]

Fresh-next :
    (n : ℕ) (index : EntityIndex)
    → IsAbove index
    → 0 < index.next_entity_id
    → index.next_entity_id + 1 < entity_mod
    → Fresh index (fresh_entity_id (suc n) index)
Fresh-next n index a high small = record {
  id = index.next_entity_id;
  next = added index;
  returned = one_round n index high;
  non_zero = high;
  unused = unknown_next index a;
  known = ground (arith, is_known-add index index.next_entity_id);
  kept = λ j c. has-add index j c;
  still_above = add-IsAbove index small a;
}

-- While there are ids left above those in use, the loop that makes an entity id ends within its two
-- rounds; the id is not zero and was not in use, its entity is known afterwards, and the components
-- of all entities stay as they were.
pub fresh_entity_id-Fresh :
    (index : EntityIndex)
    → IsAbove index
    → index.next_entity_id + 1 < entity_mod
    → Fresh index (fresh_entity_id fresh_fuel index)
fresh_entity_id-Fresh index a small = elim (Bool-cases (nat_eqb index.next_entity_id 0)) [
  | inr high ↦ Fresh-next 1 index a (ground arith) small
  | inl zero_next ↦
      let f : Fresh (added index) (fresh_entity_id 1 (added index)) =
        Fresh-next 0 (added index) (add-IsAbove index small a) (omega (arith, next-add index small))
          (ground (arith, next-add index small)) in
      record {
        id = f.id;
        next = f.next;
        returned = two_rounds 1 index (ground arith) ∙ f.returned;
        non_zero = f.non_zero;
        unused = ground (arith, is_known-add index f.id, f.unused);
        known = f.known;
        kept = λ j c. f.kept j c ∙ has-add index j c;
        still_above = f.still_above;
      }
]

set_ids_loop-≤ :
    (ids : List ℕ) (m : ℕ) (map : Map ℕ ComponentSet)
    → (m ≤ (set_ids_loop ids m map).0)
      × ((j : ℕ)
          → is_some (lookup j (set_ids_loop ids m map).1) ≡ true
          → (is_some (lookup j map) ≡ true) ⊎ (j ≤ (set_ids_loop ids m map).0))
unfolding set_ids_loop
set_ids_loop-≤ [] m map = (omega arith, λ j h. inl h)
set_ids_loop-≤ (id ∷ rest) m map =
    let k = if ltb m id then id else m in
    let (low, from) = set_ids_loop-≤ rest k (insert id [] map) in
    (
      ground (arith, low),
      λ j h. ground (arith, low, from j, lookup-insert id j [] map, contains-eq-is_some id map),
    )

pub set_ids_loop-known :
    (ids : List ℕ) (m : ℕ) (map : Map ℕ ComponentSet) (j : ℕ)
    → is_some (lookup j (set_ids_loop ids m map).1) ≡ (Set.member j ids || is_some (lookup j map))
unfolding set_ids_loop Set.member
set_ids_loop-known [] m map j = refl
set_ids_loop-known (id ∷ rest) m map j =
    let k = if ltb m id then id else m in
    ground (
      arith,
      set_ids_loop-known rest k (insert id [] map) j,
      lookup-insert id j [] map,
      contains-eq-is_some id map,
    )

set_ids_loop-small :
    (ids : List ℕ) (m n : ℕ) (map : Map ℕ ComponentSet)
    → m < n
    → ((j : ℕ) → Set.member j ids ≡ true → j < n)
    → (set_ids_loop ids m map).0 < n
unfolding set_ids_loop Set.member
set_ids_loop-small [] m n map small below = small
set_ids_loop-small (id ∷ rest) m n map small below =
    let here : id < n = below id (ground arith) in
    set_ids_loop-small rest (if ltb m id then id else m) n (insert id [] map) (ground arith)
      (λ j h. below j (ground (arith, h)))

-- The index that a list of configured ids leads to.
pub record Configured (ids : List ℕ) (index : EntityIndex) : Type 0 where
  pub known_ids : (j : ℕ) → is_known index j ≡ Set.member j ids
  pub below : (j : ℕ) → Set.member j ids ≡ true → j < index.next_entity_id
  pub above_known : IsAbove index

-- Configuring an empty index with ids that all leave room for one more makes exactly these entities
-- known, and puts the next id above each configured id and above each known entity.
pub set_entity_ids-Configured :
    (ids : List ℕ)
    → ((j : ℕ) → Set.member j ids ≡ true → j < 4294967295)
    → Configured ids (set_entity_ids ids EntityIndex.empty)
unfolding set_entity_ids lookup
set_entity_ids-Configured ids small =
    let room : (set_ids_loop ids 0 []).0 < 4294967295 =
      set_ids_loop-small ids 0 4294967295 [] (omega arith) small in
    let above : (j : ℕ)
        → is_some (lookup j (set_ids_loop ids 0 []).1) ≡ true
        → j < ((set_ids_loop ids 0 []).0 + 1) % entity_mod =
      λ j h. ground (arith, (set_ids_loop-≤ ids 0 []).1 j) in
    record {
      known_ids = λ j. ground (arith, set_ids_loop-known ids 0 [] j);
      below = λ j h. above j (ground (arith, set_ids_loop-known ids 0 [] j));
      above_known = record { above = above };
    }

-- Where the largest configured id is the largest of all and 1 is configured too, the next new
-- entity gets the id 1, which is in use.
pub fresh_entity_id_wraps :
    (ids : List ℕ)
    → (set_ids_loop ids 0 []).0 + 1 ≡ entity_mod
    → Set.member 1 ids ≡ true
    → (is_known (set_entity_ids ids EntityIndex.empty) 1 ≡ true)
      × (next : EntityIndex) × (fresh_entity_id fresh_fuel (set_entity_ids ids EntityIndex.empty)
          ≡ some (1, next))
unfolding set_entity_ids fresh_entity_id add_entity_id
fresh_entity_id_wraps ids full one = (
  ground (arith, set_ids_loop-known ids 0 [] 1),
  added (added (set_entity_ids ids EntityIndex.empty)),
  ground arith,
)
