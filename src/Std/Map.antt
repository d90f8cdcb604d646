-- ===== src/Std/Map.antt =====
-- `std::unordered_map` as an association list. The order of its entries is the model's own: the
-- standard leaves it open, and no theorem speaks of it.
pub mod Laws
use bento_box.Base.{Bool, true, false, List, [], ◌∷◌, Option, none, some, if◌then◌else◌, map}
use bento_box.Base.Classes.{Key, ◌==◌}
use bento_box.Exec.{Result, or_raise, map_at}

abbrev pub Map {ℓ κ} : Type ℓ → Type κ → Type (ℓ ⊔ κ)
Map K V = List (K × V)

abbrev pub is_some {ℓ} : {A : Type ℓ} → Option A → Bool
is_some none = false
is_some (some a) = true

module _ {ℓ κ} {K : Type ℓ} {V : Type κ} ⦃e : Key K⦄ where
  unfoldable pub lookup : K → Map K V → Option V
  lookup k [] = none
  lookup k ((j, v) ∷ m) = if j == k then some v else lookup k m

  -- `contains(k)`
  unfoldable pub contains : K → Map K V → Bool
  contains k m = is_some (lookup k m)

  -- `erase(k)`
  unfoldable pub without : K → Map K V → Map K V
  without k [] = []
  without k ((j, v) ∷ m) = let rest = without k m in if j == k then rest else (j, v) ∷ rest

  -- `insert` and `emplace`: an entry that is there stays
  unfoldable pub insert : K → V → Map K V → Map K V
  unfolding contains
  insert k v m = if contains k m then m else (k, v) ∷ m

  -- `m[k] = v`
  unfoldable pub put : K → V → Map K V → Map K V
  unfolding without
  put k v m = (k, v) ∷ without k m

  -- a write through a reference to the value at `k`
  unfoldable pub update : K → (V → V) → Map K V → Map K V
  update k f [] = []
  update k f ((j, v) ∷ m) = if j == k then (j, f v) ∷ m else (j, v) ∷ update k f m

  -- `at(k)`, which throws `std::out_of_range`
  unfoldable pub at : K → Map K V → Result V
  at k m = or_raise map_at (lookup k m)

abbrev pub keys {ℓ κ} : {K : Type ℓ} {V : Type κ} → Map K V → List K
keys m = map (λ p. p.0) m
