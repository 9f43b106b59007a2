-- ===== src/Map.antt =====
-- Go's `map[K]V` as an association list. `insert` overwrites, `delete` drops the entry, and the
-- order of the list stands for the iteration order, which Go leaves open.
use grpc_mesh_server.Prelude.{
  ◌+◌, ◌≡◌, refl, ◌≢◌, Bool, true, false, List, [], ◌∷◌, Option, none, some, arith, length,
  if◌then◌else◌, Eq, beq_refl,
}

abbrev pub Map {ℓ κ} : Type ℓ → Type κ → Type (ℓ ⊔ κ)
Map K V = List (K × V)

module _ {ℓ κ} {K : Type ℓ} {V : Type κ} ⦃e : Eq K⦄ where
  unfoldable pub lookup : K → Map K V → Option V
  lookup k [] = none
  lookup k ((j, v) ∷ m) = if e.beq j k then some v else lookup k m

  unfoldable pub delete : K → Map K V → Map K V
  delete k [] = []
  delete k ((j, v) ∷ m) = let rest = delete k m in if e.beq j k then rest else (j, v) ∷ rest

  unfoldable pub insert : K → V → Map K V → Map K V
  unfolding delete
  insert k v m = (k, v) ∷ delete k m

  unfoldable pub has : K → Map K V → Bool
  unfolding lookup
  has k m = elim (lookup k m) [ none ↦ false | some v ↦ true ]

  -- No key has two entries.
  abbrev pub IsMap : Map K V → Type 0
  IsMap [] = Unit
  IsMap ((k, v) ∷ m) = (has k m ≡ false) × IsMap m

  pub lookup-delete :
      (k j : K) (m : Map K V) → lookup j (delete k m) ≡ (if e.beq k j then none else lookup j m)
  unfolding lookup delete
  lookup-delete k j [] = ground arith
  lookup-delete k j ((i, v) ∷ m) =
      ground (arith, e.beq_iff i k, e.beq_iff k j, e.beq_iff i j, lookup-delete k j m)

  pub lookup-insert :
      (k j : K) (v : V) (m : Map K V)
      → lookup j (insert k v m) ≡ (if e.beq k j then some v else lookup j m)
  unfolding lookup insert
  lookup-insert k j v m = ground (arith, lookup-delete k j m)

  pub lookup-delete_self : (k : K) (m : Map K V) → lookup k (delete k m) ≡ none
  lookup-delete_self k m = ground (arith, lookup-delete k k m, beq_refl k)

  pub lookup-insert_self : (k : K) (v : V) (m : Map K V) → lookup k (insert k v m) ≡ some v
  lookup-insert_self k v m = ground (arith, lookup-insert k k v m, beq_refl k)

  pub lookup-delete_ne : (k j : K) (m : Map K V) → k ≢ j → lookup j (delete k m) ≡ lookup j m
  lookup-delete_ne k j m h = ground (arith, lookup-delete k j m, e.beq_iff k j)

  pub lookup-insert_ne :
      (k j : K) (v : V) (m : Map K V) → k ≢ j → lookup j (insert k v m) ≡ lookup j m
  lookup-insert_ne k j v m h = ground (arith, lookup-insert k j v m, e.beq_iff k j)

  pub delete_absent : (k : K) (m : Map K V) → lookup k m ≡ none → delete k m ≡ m
  unfolding lookup delete
  delete_absent k [] h = refl
  delete_absent k ((j, v) ∷ m) h = ground (arith, delete_absent k m)

  pub delete-IsMap : (k : K) (m : Map K V) → IsMap m → IsMap (delete k m)
  unfolding delete has
  delete-IsMap k [] h = tt
  delete-IsMap k ((j, v) ∷ m) h =
      ground (arith, delete-IsMap k m h.1, lookup-delete k j m, e.beq_iff k j, e.beq_iff j k)

  pub insert-IsMap : (k : K) (v : V) (m : Map K V) → IsMap m → IsMap (insert k v m)
  unfolding insert has
  insert-IsMap k v m h = ground (arith, lookup-delete_self k m, delete-IsMap k m h)

  pub length-delete :
      (k : K) (m : Map K V) → IsMap m → has k m ≡ true → length (delete k m) + 1 ≡ length m
  unfolding lookup delete has
  length-delete k [] h p = ground arith
  length-delete k ((j, v) ∷ m) h p =
      ground (arith, length-delete k m h.1, delete_absent k m, e.beq_iff j k, beq_refl k)

  -- `for k, v := range m { acc[k] = v }`.
  unfoldable pub copy_into : Map K V → Map K V → Map K V
  copy_into acc [] = acc
  copy_into acc ((k, v) ∷ m) = copy_into (insert k v acc) m

  pub lookup-copy_into :
      (k : K) (acc m : Map K V)
      → IsMap m
      → lookup k (copy_into acc m) ≡ (if has k m then lookup k m else lookup k acc)
  unfolding lookup has copy_into
  lookup-copy_into k acc [] h = refl
  lookup-copy_into k acc ((j, v) ∷ m) h =
      ground
        (arith, lookup-copy_into k (insert j v acc) m h.1, lookup-insert j k v acc, e.beq_iff j k)
