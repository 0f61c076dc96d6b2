-- ===== src/Samples/IndexTests.antt =====
-- The index of the orders on small inputs.
use nebula_x_simulator.Prelude.{◌≡◌, refl, false, none, some, inr, [], ◌∷◌, inr, arith}
use nebula_x_simulator.Core.{lookup}
use nebula_x_simulator.Exchange.Index.{OrderMap, new_map, hash, insert, find, erase, treeify}
use nebula_x_simulator.Exchange.Index.Treeify.{IsTidy, treeify-find}
use nebula_x_simulator.Exchange.Index.Insertion.{IsIndex, insert-find}

abbrev pub start : OrderMap
unfolding new_map
start = new_map 2 1

abbrev pub after_one : OrderMap
unfolding insert hash
after_one = (insert 4 start 1 7).0

one_found : find 4 after_one 1 ≡ some (some 7)
unfolding insert new_map find hash
one_found = refl

-- A pool with no node left refuses the third number.
pool_spent : (insert 4 (insert 4 after_one 2 8).0 3 9).1 ≡ false
unfolding insert new_map hash
pool_spent = refl

gone :
    (elim (erase 4 (insert 4 after_one 2 8).0 1) [ none ↦ none | some m ↦ find 4 m 1 ]) ≡ some none
unfolding insert new_map find hash erase
gone = refl

start-IsIndex : IsIndex 4 start (λ b. [])
unfolding new_map lookup
start-IsIndex b = inr (record {
  tidy = record { chain = refl; holds = refl; apart = tt; fresh = λ id e. refl };
  bound = omega arith;
  free_apart = tt;
})

insert-find_example : find 4 after_one 1 ≡ some (some 7)
unfolding start insert
insert-find_example = insert-find 4 start 1 7 1 (λ b. []) start-IsIndex tt refl

one-IsTidy : IsTidy after_one (hash 1 1) ((1, 7) ∷ [])
unfolding new_map insert hash lookup
one-IsTidy = record {
  chain = refl;
  holds = (omega arith, refl, refl, refl, refl, refl);
  apart = (tt, tt);
  fresh = λ id e. refl;
}

treeify-find_example : find 4 (treeify 4 after_one (hash 1 1)) 1 ≡ find 4 after_one 1
treeify-find_example = treeify-find 4 after_one (hash 1 1) 1 ((1, 7) ∷ []) one-IsTidy (omega arith)
