-- ===== src/Exchange/Index/Recent.antt =====
-- What a search finds after an insertion (`insert` of src/exchange/order_map.h).
use nebula_x_simulator.Prelude.{
  ℕ, ◌<◌, ◌≡◌, ◌⊎◌, refl, ◌∙◌, sym, ap, Bool, true, false, Option, some, List, arith, u32_max, ◌==◌,
  ◌||◌, if◌then◌else◌, length, Bool-cases, inl, inr,
}
use nebula_x_simulator.Core.{lookup}
use nebula_x_simulator.Core.Maps.{lookup-put}
use nebula_x_simulator.Exchange.Pool.{head_of}
use nebula_x_simulator.Exchange.Index.{
  OrderMap, chained, treed, is_chained, is_long, hash, find_in, treeify, insert_over, push_node,
  insert_node, insert,
}
use nebula_x_simulator.Exchange.Index.Treeify.{treeify-bits, found_home}
use nebula_x_simulator.Exchange.Index.Room.{
  HasRoom, Finds, find_in-IsTidy, placed, insert_node-none, insert_node-some, insert_node-Finds,
}

if_some :
    (c : Bool) (v : ℕ) (o : Option ℕ)
    → some (if c then some v else o) ≡ (if c then some (some v) else some o)
if_some true v o = refl
if_some false v o = refl

-- In the ordered map.
insert_over-Finds :
    (n : ℕ) (m : OrderMap) (b id order j : ℕ)
    → m.state b ≡ treed
    → find_in n (insert_over m id order) b j
      ≡ (if id == j then some (some order) else find_in n m b j)
unfolding insert_over
insert_over-Finds n m b id order j e = rw e (ground (arith, lookup-put j id order m.overflow))

pub treeify-treed :
    (n : ℕ) (m : OrderMap) (b : ℕ) → m.state b ≡ chained → (treeify n m b).state b ≡ treed
unfolding treeify
treeify-treed n m b e = rw e (ground arith)

pub insert-treed :
    (n : ℕ) (m : OrderMap) (id order : ℕ)
    → m.state (hash m.bits id) ≡ treed
    → insert n m id order ≡ (insert_over m id order, true)
unfolding insert
insert-treed n m id order e = rw e refl

-- A chain that is long already is moved first.
unfoldable pub must_move : OrderMap → ℕ → Bool
must_move m id = is_long m (hash m.bits id) || (m.free_head == u32_max)

pub insert-long :
    (n : ℕ) (m : OrderMap) (id order : ℕ)
    → m.state (hash m.bits id) ≡ chained
    → must_move m id ≡ true
    → insert n m id order ≡ (insert_over (treeify n m (hash m.bits id)) id order, true)
unfolding insert must_move
insert-long n m id order e long = rw (e, long) refl

pub insert-short :
    (n : ℕ) (m : OrderMap) (id order : ℕ)
    → m.state (hash m.bits id) ≡ chained
    → must_move m id ≡ false
    → insert n m id order ≡ insert_node n m (hash m.bits id) id order
unfolding insert must_move
insert-short n m id order e short = rw (e, short) refl

insert_node-bits :
    (n : ℕ) (m : OrderMap) (b id order : ℕ) → (insert_node n m b id order).0.bits ≡ m.bits
unfolding push_node
insert_node-bits n m b id order = elim (Bool-cases (head_of m.free_head == u32_max)) [
  | inl e ↦ rw (insert_node-none n m b id order e) refl
  | inr e ↦
      let p = placed m b id order in
      rw (insert_node-some n m b id order e) (elim (Bool-cases (is_long p b)) [
        | inl long ↦ rw long (treeify-bits n p b)
        | inr short ↦ rw short refl
      ])
]

pub insert-bits : (n : ℕ) (m : OrderMap) (id order : ℕ) → (insert n m id order).0.bits ≡ m.bits
unfolding insert insert_over
insert-bits n m id order = elim (Bool-cases (is_chained (m.state (hash m.bits id)))) [
  | inl chain ↦
      let b = hash m.bits id in
      elim (Bool-cases (is_long m b || (m.free_head == u32_max))) [
        | inl long ↦ rw (chain, long) refl
        | inr short ↦ rw (chain, short) (insert_node-bits n m b id order)
      ]
  | inr e ↦ rw e refl
]

pub found_after :
    (n : ℕ) (m : OrderMap) (id order j : ℕ) (es : List (ℕ × ℕ))
    → (m.state (hash m.bits id) ≡ treed) ⊎ HasRoom n m (hash m.bits id) id es
    → hash m.bits j ≡ hash m.bits id
    → (insert n m id order).1 ≡ true
    → find_in n (insert n m id order).0 (hash m.bits id) j
      ≡ (if id == j then some (some order) else find_in n m (hash m.bits id) j)
unfolding Finds
found_after n m id order j es (inl t) h done =
    rw (insert-treed n m id order t) (insert_over-Finds n m (hash m.bits id) id order j t)
found_after n m id order j es (inr r) h done = elim (Bool-cases (must_move m id)) [
  | inl long ↦
      let b = hash m.bits id in
      let lt : length es < n = omega (arith, r.bound) in
      rw (insert-long n m id order r.tidy.chain long) (
        insert_over-Finds n (treeify n m b) b id order j (treeify-treed n m b r.tidy.chain)
        ∙ ap (λ x. if id == j then some (some order) else x) (found_home n m b j es r.tidy lt h))
  | inr short ↦
      let b = hash m.bits id in
      let same = insert-short n m id order r.tidy.chain short in
      rw (same, find_in-IsTidy n m b j es r.tidy (omega (arith, r.bound)))
        (insert_node-Finds n m b id order j es r refl h (ap (λ x. x.1) (sym same) ∙ done)
          ∙ if_some (id == j) order (lookup j es))
]
