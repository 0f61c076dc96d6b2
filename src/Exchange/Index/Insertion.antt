-- ===== src/Exchange/Index/Insertion.antt =====
-- An insertion against the finite map that the whole index stands for (src/exchange/order_map.h).
use nebula_x_simulator.Prelude.{
  ℕ, suc, ◌<◌, ◌≡◌, ◌≢◌, ◌⊎◌, refl, ◌∙◌, sym, ap, subst, true, false, some, List, arith, u32_max,
  ◌==◌, if◌then◌else◌, length, update, ◌∷◌, Bool-cases, inl, inr,
}
use nebula_x_simulator.Core.Maps.{lookup-put}
use nebula_x_simulator.Exchange.Pool.{head_of}
use nebula_x_simulator.Exchange.Book.Chain.{NotIn}
use nebula_x_simulator.Exchange.Index.{
  Node, OrderMap, treed, is_long, hash, find_in, find, treeify, insert_over, push_node, insert_node,
  insert,
}
use nebula_x_simulator.Exchange.Index.Chains.{walk-lookup}
use nebula_x_simulator.Exchange.Index.Treeify.{IsTidy, Lacks, found_elsewhere}
use nebula_x_simulator.Exchange.Index.Room.{
  HasRoom, Holds-update, push_node-IsTidy, chain_nodes, placed, insert_node-none, insert_node-some,
}
use nebula_x_simulator.Exchange.Index.Recent.{
  found_after, insert-bits, insert-treed, insert-long, insert-short, must_move,
}

-- A chained bucket whose entries the list has: tidy, shorter than the walks, and without the node at
-- the head of the free list.
pub record IsServed (n : ℕ) (m : OrderMap) (b : ℕ) (es : List (ℕ × ℕ)) : Type 0 where
  pub tidy : IsTidy m b es
  pub bound : suc (length es) < n
  pub free_apart : NotIn (head_of m.free_head) (chain_nodes m.nodes (m.buckets b) es)

-- Every bucket is in the ordered map or is a chain of its entries.
abbrev pub IsIndex : ℕ → OrderMap → (ℕ → List (ℕ × ℕ)) → Type 0
IsIndex n m entries = (b : ℕ) → (m.state b ≡ treed) ⊎ IsServed n m b (entries b)

insert_over-other :
    (n : ℕ) (m : OrderMap) (c id order j : ℕ)
    → id ≢ j
    → find_in n (insert_over m id order) c j ≡ find_in n m c j
unfolding insert_over
insert_over-other n m c id order j ne = ground (arith, ne, lookup-put j id order m.overflow)

placed-other :
    (n : ℕ) (m : OrderMap) (b c id order j : ℕ) (ds : List (ℕ × ℕ))
    → b ≢ c
    → (m.state c ≡ treed) ⊎ IsServed n m c ds
    → find_in n (placed m b id order) c j ≡ find_in n m c j
unfolding push_node
placed-other n m b c id order j ds ne (inl t) = rw t refl
placed-other n m b c id order j ds ne (inr s) =
    let lt : length ds < n = omega (arith, s.bound) in
    let node : Node = record { order_id = id; order = order; next_idx = m.buckets b; bucket = b } in
    let before = walk-lookup n m.nodes m.bits (m.buckets c) c j (m.buckets c) ds s.tidy.holds lt in
    let kept =
      Holds-update m.bits c (head_of m.free_head) (m.buckets c) m.nodes node ds s.tidy.holds
        s.free_apart in
    let same : (if b == c then head_of m.free_head else m.buckets c) ≡ m.buckets c =
      ground (arith, ne) in
    rw (s.tidy.chain, same, before)
      (walk-lookup n (update m.nodes (head_of m.free_head) node) m.bits (m.buckets c) c j
        (m.buckets c) ds kept lt)

insert_node-other :
    (n : ℕ) (m : OrderMap) (b c id order j : ℕ) (es ds : List (ℕ × ℕ))
    → HasRoom n m b id es
    → hash m.bits id ≡ b
    → hash m.bits j ≡ c
    → b ≢ c
    → (m.state c ≡ treed) ⊎ IsServed n m c ds
    → find_in n (insert_node n m b id order).0 c j ≡ find_in n m c j
unfolding push_node
insert_node-other n m b c id order j es ds r home h ne s =
    elim (Bool-cases (head_of m.free_head == u32_max)) [
      | inl e ↦ rw (insert_node-none n m b id order e) refl
      | inr e ↦
          let p = placed m b id order in
          let t = push_node-IsTidy n m b id order es r home e in
          let same = placed-other n m b c id order j ds ne s in
          rw (insert_node-some n m b id order e) (elim (Bool-cases (is_long p b)) [
            | inl long ↦ rw long (found_elsewhere n p b c j ((id, order) ∷ es) t h ne ∙ same)
            | inr short ↦ rw short same
          ])
    ]

has_room :
    (n : ℕ) (m : OrderMap) (b id : ℕ) (es : List (ℕ × ℕ))
    → IsServed n m b es
    → Lacks id es
    → HasRoom n m b id es
has_room n m b id es s lacks = record {
  tidy = s.tidy;
  absent = lacks;
  bound = s.bound;
  free_apart = s.free_apart;
}

not_same : (a b : ℕ) → a ≢ b → (a == b) ≡ false
not_same a b ne = ground arith

-- The search in another bucket.
insert-other :
    (n : ℕ) (m : OrderMap) (id order j : ℕ) (entries : ℕ → List (ℕ × ℕ))
    → IsIndex n m entries
    → Lacks id (entries (hash m.bits id))
    → hash m.bits id ≢ hash m.bits j
    → find_in n (insert n m id order).0 (hash m.bits j) j ≡ find_in n m (hash m.bits j) j
insert-other n m id order j entries index lacks ne =
    let b = hash m.bits id in
    let c = hash m.bits j in
    let differ : id ≢ j = λ e. ne (ap (hash m.bits) e) in
    elim (index b) [
      | inl t ↦ rw (insert-treed n m id order t) (insert_over-other n m c id order j differ)
      | inr s ↦ elim (Bool-cases (must_move m id)) [
        | inl long ↦ rw (insert-long n m id order s.tidy.chain long) (
            insert_over-other n (treeify n m b) c id order j differ
            ∙ found_elsewhere n m b c j (entries b) s.tidy refl ne)
        | inr short ↦ rw (insert-short n m id order s.tidy.chain short) (
            insert_node-other n m b c id order j (entries b) (entries c)
              (has_room n m b id (entries b) s lacks) refl refl ne (index c))
      ]
    ]

-- In an index whose chained buckets are tidy, shorter than the walks and apart from the head of the
-- free list: after an insertion that is taken, of a number that is in no chain, a search for any
-- number finds the new order under the new number and answers as before for every other one, in
-- every bucket, also when a bucket is moved to the ordered map on the way.
pub insert-find :
    (n : ℕ) (m : OrderMap) (id order j : ℕ) (entries : ℕ → List (ℕ × ℕ))
    → IsIndex n m entries
    → Lacks id (entries (hash m.bits id))
    → (insert n m id order).1 ≡ true
    → find n (insert n m id order).0 j ≡ (if id == j then some (some order) else find n m j)
unfolding find
insert-find n m id order j entries index lacks done =
    rw (insert-bits n m id order) (elim (Bool-cases (hash m.bits id == hash m.bits j)) [
      | inl e ↦
          let same : hash m.bits id ≡ hash m.bits j = ground arith in
          let room : (m.state (hash m.bits id) ≡ treed)
              ⊎ HasRoom n m (hash m.bits id) id (entries (hash m.bits id)) =
            elim (index (hash m.bits id)) [
              | inl t ↦ inl t
              | inr s ↦ inr (has_room n m (hash m.bits id) id (entries (hash m.bits id)) s lacks)
            ] in
          subst
            (λ c.
              find_in n (insert n m id order).0 c j
              ≡ (if id == j then some (some order) else find_in n m c j))
            same (found_after n m id order j (entries (hash m.bits id)) room (sym same) done)
      | inr e ↦
          let ne : hash m.bits id ≢ hash m.bits j = ground arith in
          let other = not_same id j (λ e. ne (ap (hash m.bits) e)) in
          rw other (insert-other n m id order j entries index lacks ne)
    ])
