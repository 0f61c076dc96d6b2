-- ===== src/Exchange/Index/Room.antt =====
-- The insertion of a node in a chain (`insert` of src/exchange/order_map.h).
use nebula_x_simulator.Prelude.{
  ℕ, suc, ◌<◌, ◌≡◌, refl, ◌∙◌, ap, true, false, none, some, List, [], ◌∷◌, arith, u32_max, ◌==◌,
  if◌then◌else◌, length, update, Bool-cases, inl, inr,
}
use nebula_x_simulator.Core.{lookup}
use nebula_x_simulator.Exchange.Pool.{head_of, retag}
use nebula_x_simulator.Exchange.Book.Chain.{NotIn}
use nebula_x_simulator.Exchange.Index.{
  Node, OrderMap, is_long, hash, find_in, treeify, alloc_node, push_node, insert_node,
}
use nebula_x_simulator.Exchange.Index.Chains.{Holds, walk-lookup}
use nebula_x_simulator.Exchange.Index.Treeify.{IsTidy, Lacks, found_home}

-- The nodes of a chain.
abbrev pub chain_nodes : (ℕ → Node) → ℕ → List (ℕ × ℕ) → List ℕ
chain_nodes nodes idx [] = []
chain_nodes nodes idx (e ∷ es) = idx ∷ chain_nodes nodes (nodes idx).next_idx es

-- A write to a node outside a chain leaves the chain.
pub Holds-update :
    (bits b i idx : ℕ) (nodes : ℕ → Node) (node : Node) (es : List (ℕ × ℕ))
    → Holds bits b nodes idx es
    → NotIn i (chain_nodes nodes idx es)
    → Holds bits b (update nodes i node) idx es
Holds-update bits b i idx nodes node [] h out = h
Holds-update bits b i idx nodes node ((j, order) ∷ es) (small, bk, key, val, home, h) (ne, out) =
    let same : update nodes i node idx ≡ nodes idx = ground (arith, ne) in
    let rest = Holds-update bits b i (nodes idx).next_idx nodes node es h out in
    rw same (small, bk, key, val, home, rest)

-- A search in a chained bucket reads its entries.
pub find_in-IsTidy :
    (n : ℕ) (m : OrderMap) (b id : ℕ) (es : List (ℕ × ℕ))
    → IsTidy m b es
    → length es < n
    → find_in n m b id ≡ some (lookup id es)
find_in-IsTidy n m b id es t lt =
    rw (t.chain) (walk-lookup n m.nodes m.bits (m.buckets b) b id (m.buckets b) es t.holds lt)

-- What the insertion of a number in a chained bucket starts from: the bucket holds the entries, the
-- number is not among them, there are fewer than `n` with it, and no node of the chain is free.
pub record HasRoom (n : ℕ) (m : OrderMap) (b id : ℕ) (es : List (ℕ × ℕ)) : Type 0 where
  pub tidy : IsTidy m b es
  pub absent : Lacks id es
  pub bound : suc (length es) < n
  pub free_apart : NotIn (head_of m.free_head) (chain_nodes m.nodes (m.buckets b) es)

-- The map whose free list has lost its first node.
abbrev pub spent : OrderMap → OrderMap
spent m = record m { free_head = retag m.free_head (m.nodes (head_of m.free_head)).next_idx }

same_key : (a : ℕ) → (a == a) ≡ true
same_key a = ground arith

pub push_node-IsTidy :
    (n : ℕ) (m : OrderMap) (b id order : ℕ) (es : List (ℕ × ℕ))
    → HasRoom n m b id es
    → hash m.bits id ≡ b
    → (head_of m.free_head == u32_max) ≡ false
    → IsTidy (push_node (spent m) (head_of m.free_head) b id order) b ((id, order) ∷ es)
unfolding push_node
push_node-IsTidy n m b id order es r home e = record {
  chain = r.tidy.chain;
  holds =
      rw (same_key b, same_key (head_of m.free_head))
        (
          ground arith,
          refl,
          refl,
          refl,
          home,
          Holds-update m.bits b (head_of m.free_head) (m.buckets b) m.nodes
              (record { order_id = id; order = order; next_idx = m.buckets b; bucket = b }) es
              r.tidy.holds r.free_apart,
        );
  apart = (r.absent, r.tidy.apart);
  fresh = r.tidy.fresh;
}

alloc_node-spent :
    (m : OrderMap)
    → (head_of m.free_head == u32_max) ≡ false
    → alloc_node m ≡ some (head_of m.free_head, spent m)
unfolding alloc_node
alloc_node-spent m e = rw e refl

alloc_node-none : (m : OrderMap) → (head_of m.free_head == u32_max) ≡ true → alloc_node m ≡ none
unfolding alloc_node
alloc_node-none m e = rw e refl

abbrev pub placed : OrderMap → ℕ → ℕ → ℕ → OrderMap
placed m b id order = push_node (spent m) (head_of m.free_head) b id order

pub insert_node-none :
    (n : ℕ) (m : OrderMap) (b id order : ℕ)
    → (head_of m.free_head == u32_max) ≡ true
    → insert_node n m b id order ≡ (m, false)
unfolding insert_node
insert_node-none n m b id order e = rw (alloc_node-none m e, insert_node) refl

pub insert_node-some :
    (n : ℕ) (m : OrderMap) (b id order : ℕ)
    → (head_of m.free_head == u32_max) ≡ false
    → insert_node n m b id order ≡ (
        if is_long (placed m b id order) b
        then (treeify n (placed m b id order) b, true)
        else (placed m b id order, true))
unfolding insert_node
insert_node-some n m b id order e = rw (alloc_node-spent m e, insert_node) refl

-- What the search for `j` answers once `id` has been entered before the entries.
unfoldable pub Finds : ℕ → OrderMap → ℕ → ℕ → ℕ → ℕ → List (ℕ × ℕ) → Type 0
Finds n m b id order j es = find_in n m b j ≡ some (if id == j then some order else lookup j es)

pub insert_node-Finds :
    (n : ℕ) (m : OrderMap) (b id order j : ℕ) (es : List (ℕ × ℕ))
    → HasRoom n m b id es
    → hash m.bits id ≡ b
    → hash m.bits j ≡ b
    → (insert_node n m b id order).1 ≡ true
    → Finds n (insert_node n m b id order).0 b id order j es
unfolding lookup Finds push_node
insert_node-Finds n m b id order j es r home h done =
    elim (Bool-cases (head_of m.free_head == u32_max)) [
      | inl e ↦
          let failed = ap (λ x. x.1) (insert_node-none n m b id order e) in
          absurd (ground (arith, failed, done))
      | inr e ↦
          let p = placed m b id order in
          let t = push_node-IsTidy n m b id order es r home e in
          let read = find_in-IsTidy n p b j ((id, order) ∷ es) t r.bound in
          rw (insert_node-some n m b id order e) (elim (Bool-cases (is_long p b)) [
            | inl long ↦ rw long (found_home n p b j ((id, order) ∷ es) t r.bound h ∙ read)
            | inr short ↦ rw short read
          ])
    ]
