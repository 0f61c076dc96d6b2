-- ===== src/Core/Maps.antt =====
-- Laws of the maps and sets of src/core users: what is read after a write.
use nebula_x_simulator.Prelude.{
  ℕ, ◌≡◌, refl, true, false, some, List, [], ◌∷◌, if◌then◌else◌, ◌==◌, arith,
}
use nebula_x_simulator.Core.{lookup, put, has, add_id, erase_id}

module _ {ℓ} {V : Type ℓ} where
  pub lookup-put :
      (j k : ℕ) (v : V) (m : List (ℕ × V))
      → lookup j (put k v m) ≡ (if k == j then some v else lookup j m)
  unfolding lookup put
  lookup-put j k v [] = refl
  lookup-put j k v ((i, w) ∷ m) = ground (arith, lookup-put j k v m)

pub has-add_id : (j k : ℕ) (s : List ℕ) → has (add_id k s) j ≡ (if k == j then true else has s j)
unfolding add_id has
has-add_id j k s = ground (arith, has-self j k s)
  where
    has-self : (j k : ℕ) (s : List ℕ) → has s k ≡ true → k ≡ j → has s j ≡ true
    has-self j k s h e = ground arith

pub has-erase_id :
    (j k : ℕ) (s : List ℕ) → has (erase_id k s) j ≡ (if k == j then false else has s j)
unfolding has erase_id
has-erase_id j k [] = ground arith
has-erase_id j k (i ∷ s) = ground (arith, has-erase_id j k s)
