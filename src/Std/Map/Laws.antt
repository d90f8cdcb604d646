-- ===== src/Std/Map/Laws.antt =====
-- What a lookup finds after each operation of `Std.Map`.
use bento_box.Base.{
  ◌≡◌, refl, ap, length, suc, [], ◌∷◌, inl, inr, Bool-cases, none, some, if◌then◌else◌, arith,
}
use bento_box.Base.Classes.{Key, ◌==◌}
use bento_box.Std.Map.{Map, lookup, is_some, contains, without, insert, put, update}

module _ {ℓ κ} {K : Type ℓ} {V : Type κ} ⦃e : Key K⦄ where
  pub lookup-without :
      (k j : K) (m : Map K V) → lookup j (without k m) ≡ (if k == j then none else lookup j m)
  unfolding lookup without
  lookup-without k j [] = ground arith
  lookup-without k j ((i, v) ∷ m) =
      ground (arith, lookup-without k j m, e.same_iff i k, e.same_iff i j, e.same_iff k j)

  pub lookup-put :
      (k j : K) (v : V) (m : Map K V)
      → lookup j (put k v m) ≡ (if k == j then some v else lookup j m)
  unfolding put lookup
  lookup-put k j v m = ground (arith, lookup-without k j m)

  pub lookup-insert :
      (k j : K) (v : V) (m : Map K V)
      → lookup j (insert k v m)
        ≡ (if contains k m then lookup j m else if k == j then some v else lookup j m)
  unfolding insert lookup
  lookup-insert k j v m = ground arith

  -- a write through a reference changes the entry of its key alone
  pub lookup-update :
      (k j : K) (f : V → V) (v : V) (m : Map K V)
      → lookup k m ≡ some v
      → lookup j (update k f m) ≡ (if k == j then some (f v) else lookup j m)
  unfolding lookup update
  lookup-update k j f v [] h = ground arith
  lookup-update k j f v ((i, w) ∷ m) h =
      ground (arith, lookup-update k j f v m, e.same_iff i k, e.same_iff i j, e.same_iff k j)

  pub lookup-update-none :
      (k j : K) (f : V → V) (m : Map K V) → lookup k m ≡ none → lookup j (update k f m) ≡ lookup j m
  unfolding lookup update
  lookup-update-none k j f [] h = refl
  lookup-update-none k j f ((i, w) ∷ m) h =
      ground (arith, lookup-update-none k j f m, e.same_iff i k)

  pub contains-eq-is_some : (k : K) (m : Map K V) → contains k m ≡ is_some (lookup k m)
  unfolding contains
  contains-eq-is_some k m = refl

  pub lookup-insert_new :
      (k j : K) (v : V) (m : Map K V)
      → lookup k m ≡ none
      → lookup j (insert k v m) ≡ (if k == j then some v else lookup j m)
  lookup-insert_new k j v m h = ground (arith, lookup-insert k j v m, contains-eq-is_some k m)

  -- Every key has one entry.
  abbrev pub UniqueKeys : Map K V → Type (ℓ ⊔ κ)
  UniqueKeys [] = Unit
  UniqueKeys ((k, v) ∷ m) = (lookup k m ≡ none) × UniqueKeys m

  pub UniqueKeys-without : (k : K) (m : Map K V) → UniqueKeys m → UniqueKeys (without k m)
  unfolding without
  UniqueKeys-without k [] u = tt
  UniqueKeys-without k ((j, v) ∷ m) (h, u) = elim (Bool-cases (j == k)) [
    | inl same ↦ rw same (UniqueKeys-without k m u)
    | inr other ↦ rw other (ground (arith, lookup-without k j m), UniqueKeys-without k m u)
  ]

  pub UniqueKeys-put : (k : K) (v : V) (m : Map K V) → UniqueKeys m → UniqueKeys (put k v m)
  unfolding put
  UniqueKeys-put k v m u =
      (ground (arith, lookup-without k k m, e.same_iff k k), UniqueKeys-without k m u)

  pub UniqueKeys-insert : (k : K) (v : V) (m : Map K V) → UniqueKeys m → UniqueKeys (insert k v m)
  unfolding insert
  UniqueKeys-insert k v m u = elim (Bool-cases (contains k m)) [
    | inl old ↦ rw old u
    | inr new ↦ rw new (ground (arith, contains-eq-is_some k m), u)
  ]

  pub lookup-update_keeps_none :
      (k j : K) (f : V → V) (m : Map K V) → lookup j m ≡ none → lookup j (update k f m) ≡ none
  unfolding lookup update
  lookup-update_keeps_none k j f [] h = refl
  lookup-update_keeps_none k j f ((i, w) ∷ m) h = ground (arith, lookup-update_keeps_none k j f m)

  pub UniqueKeys-update :
      (k : K) (f : V → V) (m : Map K V) → UniqueKeys m → UniqueKeys (update k f m)
  unfolding update
  UniqueKeys-update k f [] u = tt
  UniqueKeys-update k f ((j, v) ∷ m) (h, u) = elim (Bool-cases (j == k)) [
    | inl same ↦ rw same (h, u)
    | inr other ↦ rw other (lookup-update_keeps_none k j f m h, UniqueKeys-update k f m u)
  ]

  pub length-insert :
      (k : K) (v : V) (m : Map K V) → lookup k m ≡ none → length (insert k v m) ≡ suc (length m)
  unfolding insert
  length-insert k v m h = ground (arith, contains-eq-is_some k m)

  without_missing : (k : K) (m : Map K V) → lookup k m ≡ none → without k m ≡ m
  unfolding lookup without
  without_missing k [] h = refl
  without_missing k ((j, v) ∷ m) h = ground (arith, without_missing k m)

  pub length-without :
      (k : K) (v : V) (m : Map K V)
      → UniqueKeys m
      → lookup k m ≡ some v
      → suc (length (without k m)) ≡ length m
  unfolding lookup without
  length-without k v [] u h = absurd (ground arith)
  length-without k v ((j, w) ∷ m) (fresh, u) h = elim (Bool-cases (j == k)) [
    | inl same ↦
        rw same
          (ap (λ l. suc (length l)) (without_missing k m (rw (← (e.same_iff j k).0 same) fresh)))
    | inr other ↦ rw other (ap suc (length-without k v m u (rw other at h)))
  ]
