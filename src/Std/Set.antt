-- ===== src/Std/Set.antt =====
-- `std::unordered_set` as a list. The order of its elements is the model's own.
use bento_box.Base.{
  Bool-cases, inl, inr, ◌≡◌, Bool, false, List, [], ◌∷◌, if◌then◌else◌, ◌||◌, ◌&&◌, not, arith,
}
use bento_box.Base.Classes.{Key, ◌==◌}

module _ {ℓ} {A : Type ℓ} ⦃e : Key A⦄ where
  unfoldable pub member : A → List A → Bool
  member a [] = false
  member a (x ∷ xs) = x == a || member a xs

  -- `insert` and `emplace`
  unfoldable pub add : A → List A → List A
  unfolding member
  add a xs = if member a xs then xs else a ∷ xs

  -- `erase`
  unfoldable pub erase : A → List A → List A
  erase a [] = []
  erase a (x ∷ xs) = let rest = erase a xs in if x == a then rest else x ∷ rest

  pub member-add : (a b : A) (xs : List A) → member b (add a xs) ≡ (a == b || member b xs)
  unfolding add member
  member-add a b xs = ground (arith, e.same_iff a b)

  pub member-erase : (a b : A) (xs : List A) → member b (erase a xs) ≡ (not (a == b) && member b xs)
  unfolding erase member
  member-erase a b [] = ground arith
  member-erase a b (x ∷ xs) =
      ground (arith, member-erase a b xs, e.same_iff x a, e.same_iff x b, e.same_iff a b)

  -- no element twice
  abbrev pub IsDistinct : List A → Type 0
  IsDistinct [] = Unit
  IsDistinct (x ∷ xs) = (member x xs ≡ false) × IsDistinct xs

  pub add-IsDistinct : (a : A) (xs : List A) → IsDistinct xs → IsDistinct (add a xs)
  unfolding add
  add-IsDistinct a xs d = elim (Bool-cases (member a xs)) [
    | inl old ↦ rw old d
    | inr new ↦ rw new (new, d)
  ]
