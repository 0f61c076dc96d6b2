-- ===== src/Exchange/Index.antt =====
-- The index of the orders by their numbers (`OrderMap` of src/exchange/order_map.h), as one thread
-- runs it: a compare-exchange succeeds at once, a lock is free. Chains of pooled nodes, and one
-- ordered map for the buckets whose chains have grown too long. An order is a slot's number.
pub mod Chains
pub mod Treeify
pub mod Room
pub mod Recent
pub mod Insertion
use nebula_x_simulator.Prelude.{
  ℕ, zero, suc, ◌+◌, ◌-◌, ◌*◌, ◌/◌, ◌%◌, ◌^◌, Bool, true, false, Option, none, some, List, [], ◌∷◌,
  if◌then◌else◌, ltb, leb, ◌==◌, ◌||◌, not, update, u32_max, u64_mod, add64, sub64,
}
use nebula_x_simulator.Core.{lookup, put}
use nebula_x_simulator.Exchange.Pool.{head_of, retag}

pub record Node : Type 0 where
  pub order_id : ℕ
  pub order : ℕ
  pub next_idx : ℕ
  pub bucket : ℕ

pub data BucketState : Type 0 where
  chained turning treed : BucketState

-- There are 2 ^ bits buckets.
pub record OrderMap : Type 0 where
  pub nodes : ℕ → Node
  pub buckets : ℕ → ℕ
  pub bucket_len : ℕ → ℕ
  pub state : ℕ → BucketState
  pub bits : ℕ
  pub free_head : ℕ
  pub size : ℕ
  pub overflow : List (ℕ × ℕ)

abbrev pub treeify_threshold : ℕ
treeify_threshold = 8

-- `bits` for `roundPow2(capacity)`
unfoldable pub new_map : ℕ → ℕ → OrderMap
new_map capacity bits = record {
  nodes = λ i. record {
    order_id = 0;
    order = 0;
    next_idx = if leb capacity (i + 1) then u32_max else i + 1;
    bucket = 0;
  };
  buckets = λ b. u32_max;
  bucket_len = λ b. 0;
  state = λ b. chained;
  bits = bits;
  free_head = 0;
  size = 0;
  overflow = [];
}

-- The product's high bits.
unfoldable pub hash : ℕ → ℕ → ℕ
hash bits id = id * 11400714819323198485 % u64_mod / 2 ^ (64 - bits)

abbrev pub is_chained : BucketState → Bool
is_chained chained = true
is_chained _ = false

unfoldable pub alloc_node : OrderMap → Option (ℕ × OrderMap)
alloc_node m =
    let head = head_of m.free_head in
    if head == u32_max
    then none
    else some (head, record m { free_head = retag m.free_head (m.nodes head).next_idx })

unfoldable pub free_node : OrderMap → ℕ → OrderMap
free_node m idx = record m {
  nodes = update m.nodes idx (record (m.nodes idx) { next_idx = head_of m.free_head });
  free_head = retag m.free_head idx;
}

-- The copy of a chain, of at most `n` nodes, to the ordered map.
unfoldable pub copy_chain : ℕ → (ℕ → Node) → ℕ → List (ℕ × ℕ) → List (ℕ × ℕ)
unfolding put
copy_chain zero nodes cur over = over
copy_chain (suc n) nodes cur over =
    let rest =
      copy_chain n nodes (nodes cur).next_idx (put (nodes cur).order_id (nodes cur).order over) in
    if cur == u32_max then over else rest

-- `n` bounds the chain.
unfoldable pub treeify : ℕ → OrderMap → ℕ → OrderMap
unfolding copy_chain
treeify n m b =
    if is_chained (m.state b)
    then record m {
      overflow = copy_chain n m.nodes (m.buckets b) m.overflow;
      state = update m.state b treed;
    }
    else m

-- The entry in the ordered map, counted whether or not the number was there.
unfoldable pub insert_over : OrderMap → ℕ → ℕ → OrderMap
unfolding put
insert_over m id order = record m { overflow = put id order m.overflow; size = add64 m.size 1 }

-- The node at the head of its bucket's chain.
unfoldable pub push_node : OrderMap → ℕ → ℕ → ℕ → ℕ → OrderMap
push_node m idx b id order = record m {
  nodes =
      update m.nodes idx
        (record { order_id = id; order = order; next_idx = m.buckets b; bucket = b });
  buckets = update m.buckets b idx;
  bucket_len = update m.bucket_len b ((m.bucket_len b + 1) % 65536);
  size = add64 m.size 1;
}

-- `bucket_len_[b] >= TREEIFY_THRESHOLD`
abbrev pub is_long : OrderMap → ℕ → Bool
is_long m b = leb treeify_threshold (m.bucket_len b)

-- The insertion in a chain, and whether there was a node for it.
unfoldable pub insert_node : ℕ → OrderMap → ℕ → ℕ → ℕ → OrderMap × Bool
unfolding treeify alloc_node push_node
insert_node n m b id order = elim (alloc_node m) [
  | none ↦ (m, false)
  | some (idx, m') ↦
      let p = push_node m' idx b id order in
      if is_long p b then (treeify n p b, true) else (p, true)
]

-- The insertion, and whether the order was taken; `n` bounds the chain.
unfoldable pub insert : ℕ → OrderMap → ℕ → ℕ → OrderMap × Bool
unfolding hash treeify insert_over insert_node
insert n m id order =
    let b = hash m.bits id in
    if not (is_chained (m.state b))
    then (insert_over m id order, true)
    else if is_long m b || (m.free_head == u32_max)
    then (insert_over (treeify n m b) id order, true)
    else insert_node n m b id order

-- The walk of `find` along the chain that begins at `start`, from a node, over at most `n` nodes:
-- `none` when it is not over by then. A node of another bucket begins it again.
unfoldable pub walk : ℕ → (ℕ → Node) → ℕ → ℕ → ℕ → ℕ → Option (Option ℕ)
walk zero nodes start b id idx = none
walk (suc n) nodes start b id idx =
    let again = walk n nodes start b id start in
    let rest = walk n nodes start b id (nodes idx).next_idx in
    if idx == u32_max
    then some none
    else if not ((nodes idx).bucket == b)
    then again
    else if (nodes idx).order_id == id
    then some (some (nodes idx).order)
    else rest

-- The search in the bucket `b`.
abbrev pub find_in : ℕ → OrderMap → ℕ → ℕ → Option (Option ℕ)
find_in n m b id =
    if is_chained (m.state b)
    then walk n m.nodes (m.buckets b) b id (m.buckets b)
    else some (lookup id m.overflow)

unfoldable pub find : ℕ → OrderMap → ℕ → Option (Option ℕ)
unfolding hash walk lookup
find n m id = find_in n m (hash m.bits id) id

unfoldable pub remove_key : ℕ → List (ℕ × ℕ) → List (ℕ × ℕ)
remove_key id [] = []
remove_key id ((j, order) ∷ es) =
    let rest = remove_key id es in if j == id then rest else (j, order) ∷ rest

-- A node that has left its chain: back to the pool, and both counts less.
unfoldable pub drop_node : OrderMap → ℕ → ℕ → OrderMap
unfolding free_node
drop_node m b idx =
    let m' = free_node m idx in
    record m' {
      bucket_len = update m'.bucket_len b ((m'.bucket_len b + 65535) % 65536);
      size = sub64 m'.size 1;
    }

-- The removal of the node after one that the walk has come to, over at most `n` nodes: `none` when
-- it is not over by then. A node of another bucket begins the walk again.
unfoldable pub erase_after : ℕ → OrderMap → ℕ → ℕ → ℕ → Option OrderMap
unfolding drop_node
erase_after zero m b id idx = none
erase_after (suc n) m b id idx =
    let again = erase_after n m b id (m.buckets b) in
    let next = (m.nodes idx).next_idx in
    let rest = erase_after n m b id next in
    if idx == u32_max
    then some m
    else if not ((m.nodes idx).bucket == b)
    then again
    else if next == u32_max
    then some m
    else if (m.nodes next).order_id == id
    then some (
        drop_node
          (record m {
            nodes =
                update m.nodes idx (record (m.nodes idx) { next_idx = (m.nodes next).next_idx });
          })
          b next)
    else rest

unfoldable pub erase : ℕ → OrderMap → ℕ → Option OrderMap
unfolding hash lookup remove_key drop_node erase_after
erase n m id =
    let b = hash m.bits id in
    let idx = m.buckets b in
    if not (is_chained (m.state b))
    then elim (lookup id m.overflow) [
      | none ↦ some m
      | some order ↦ some (record m { overflow = remove_key id m.overflow; size = sub64 m.size 1 })
    ]
    else if idx == u32_max
    then some m
    else if (m.nodes idx).order_id == id
    then some (drop_node (record m { buckets = update m.buckets b (m.nodes idx).next_idx }) b idx)
    else erase_after n m b id idx

unfoldable pub contains : ℕ → OrderMap → ℕ → Option Bool
unfolding find
contains n m id = elim (find n m id) [
  | none ↦ none
  | some none ↦ some false
  | some (some order) ↦ some true
]
