-- ===== src/Exchange/Index/Treeify.antt =====
-- A bucket's move from its chain to the ordered map (`treeify` of src/exchange/order_map.h).
use nebula_x_simulator.Prelude.{
  ℕ, zero, suc, ◌<◌, ◌≤◌, ◌≡◌, ◌≢◌, refl, ◌∙◌, sym, ap, subst, none, List, [], ◌∷◌, arith, ◌==◌,
  length, Bool-cases, inl, inr,
}
use nebula_x_simulator.Core.{lookup, put}
use nebula_x_simulator.Core.Maps.{lookup-put}
use nebula_x_simulator.Exchange.Index.{
  Node, OrderMap, chained, is_chained, hash, find_in, find, copy_chain, treeify,
}
use nebula_x_simulator.Exchange.Index.Chains.{Holds, walk-lookup}

-- No entry has the number.
abbrev pub Lacks : ℕ → List (ℕ × ℕ) → Type 0
Lacks id [] = Unit
Lacks id ((j, order) ∷ es) = (j ≢ id) × Lacks id es

-- No two entries have the same number.
abbrev pub Apart : List (ℕ × ℕ) → Type 0
Apart [] = Unit
Apart ((id, order) ∷ es) = Lacks id es × Apart es

-- What the copy of a chain leaves of a number that the chain lacks.
copy_chain-other :
    (n bits b id idx : ℕ) (nodes : ℕ → Node) (es over : List (ℕ × ℕ))
    → Holds bits b nodes idx es
    → Lacks id es
    → lookup id (copy_chain n nodes idx over) ≡ lookup id over
unfolding copy_chain
copy_chain-other zero bits b id idx nodes es over h lacks = refl
copy_chain-other (suc n) bits b id idx nodes [] over h lacks = ground (arith, h)
copy_chain-other (suc n) bits b id idx nodes ((j, order) ∷ es) over (small, _, key, _, _, h)
      (differ, lacks) =
    ground (
      arith,
      small,
      key,
      differ,
      copy_chain-other n bits b id (nodes idx).next_idx nodes es
          (put (nodes idx).order_id (nodes idx).order over) h lacks,
      lookup-put id (nodes idx).order_id (nodes idx).order over,
    )

-- The copy of a whole chain is read as the chain.
pub copy_chain-lookup :
    (n bits b id idx : ℕ) (nodes : ℕ → Node) (es over : List (ℕ × ℕ))
    → Holds bits b nodes idx es
    → Apart es
    → length es ≤ n
    → lookup id over ≡ none
    → lookup id (copy_chain n nodes idx over) ≡ lookup id es
unfolding copy_chain lookup
copy_chain-lookup zero bits b id idx nodes [] over h apart le fresh = fresh
copy_chain-lookup (suc n) bits b id idx nodes [] over h apart le fresh = ground (arith, h, fresh)
copy_chain-lookup zero bits b id idx nodes ((j, order) ∷ es) over h apart le fresh =
    absurd (omega arith)
copy_chain-lookup (suc n) bits b id idx nodes ((j, order) ∷ es) over (small, _, key, val, _, h)
      (lacks, apart) le fresh =
    let over' = put (nodes idx).order_id (nodes idx).order over in
    let after = lookup-put id (nodes idx).order_id (nodes idx).order over in
    elim (Bool-cases (j == id)) [
      | inl e ↦
          let same : j ≡ id = ground arith in
          let other =
            copy_chain-other n bits b id (nodes idx).next_idx nodes es over' h
              (subst (λ i. Lacks i es) same lacks) in
          ground (arith, small, key, val, e, after, other)
      | inr e ↦
          let on =
            copy_chain-lookup n bits b id (nodes idx).next_idx nodes es over' h apart (omega arith)
              (ground (arith, key, e, after, fresh)) in
          ground (arith, small, key, val, e, on)
    ]

-- A number of another bucket is not in the chain.
pub elsewhere-Lacks :
    (bits b id idx : ℕ) (nodes : ℕ → Node) (es : List (ℕ × ℕ))
    → Holds bits b nodes idx es
    → hash bits id ≢ b
    → Lacks id es
elsewhere-Lacks bits b id idx nodes [] h ne = tt
elsewhere-Lacks bits b id idx nodes ((j, order) ∷ es) (_, _, _, _, home, h) ne = (
  (λ e. ne (ap (hash bits) (sym e) ∙ home)),
  elsewhere-Lacks bits b id (nodes idx).next_idx nodes es h ne,
)

-- The bucket `b` is a chain of `es`, whose numbers differ, and the ordered map has none of its
-- numbers.
pub record IsTidy (m : OrderMap) (b : ℕ) (es : List (ℕ × ℕ)) : Type 0 where
  pub chain : m.state b ≡ chained
  pub holds : Holds m.bits b m.nodes (m.buckets b) es
  pub apart : Apart es
  pub fresh : (id : ℕ) → hash m.bits id ≡ b → lookup id m.overflow ≡ none

pub treeify-bits : (n : ℕ) (m : OrderMap) (b : ℕ) → (treeify n m b).bits ≡ m.bits
unfolding treeify
treeify-bits n m b = elim (Bool-cases (is_chained (m.state b))) [
  | inl e ↦ rw e refl
  | inr e ↦ rw e refl
]

-- The search in the bucket that is moved, and in another one.
pub found_home :
    (n : ℕ) (m : OrderMap) (b id : ℕ) (es : List (ℕ × ℕ))
    → IsTidy m b es
    → length es < n
    → hash m.bits id ≡ b
    → find_in n (treeify n m b) b id ≡ find_in n m b id
unfolding treeify
found_home n m b id es t lt home =
    let read = walk-lookup n m.nodes m.bits (m.buckets b) b id (m.buckets b) es t.holds lt in
    let copied =
      copy_chain-lookup n m.bits b id (m.buckets b) m.nodes es m.overflow t.holds t.apart
        (omega arith) (t.fresh id home) in
    rw (t.chain) (ground (arith, read, copied))

pub found_elsewhere :
    (n : ℕ) (m : OrderMap) (b c id : ℕ) (es : List (ℕ × ℕ))
    → IsTidy m b es
    → hash m.bits id ≡ c
    → b ≢ c
    → find_in n (treeify n m b) c id ≡ find_in n m c id
unfolding treeify
found_elsewhere n m b c id es t home ne =
    let other =
      copy_chain-other n m.bits b id (m.buckets b) m.nodes es m.overflow t.holds
        (elsewhere-Lacks m.bits b id (m.buckets b) m.nodes es t.holds (λ e. ne (sym e ∙ home))) in
    rw (t.chain) (ground (arith, ne, other))

-- When a chained bucket holds entries with different numbers, fewer than `n`, and the ordered map
-- has no number of that bucket, then the bucket's move to the ordered map changes no search: with
-- `n` steps every number, of this bucket or of another one, is found or missed as before.
pub treeify-find :
    (n : ℕ) (m : OrderMap) (b id : ℕ) (es : List (ℕ × ℕ))
    → IsTidy m b es
    → length es < n
    → find n (treeify n m b) id ≡ find n m id
unfolding find
treeify-find n m b id es t lt = rw (treeify-bits n m b) (elim (Bool-cases (b == hash m.bits id)) [
  | inl e ↦
      let home : b ≡ hash m.bits id = ground arith in
      subst (λ c. find_in n (treeify n m b) c id ≡ find_in n m c id) home
        (found_home n m b id es t lt (sym home))
  | inr e ↦ found_elsewhere n m b (hash m.bits id) id es t refl (ground arith)
])
