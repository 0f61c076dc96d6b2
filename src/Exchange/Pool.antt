-- ===== src/Exchange/Pool.antt =====
-- The slot pool (src/exchange/order_pool.h), as one thread runs it: a compare-exchange succeeds
-- at once. The free list's head is one 64-bit word, a tag over a slot number.
use nebula_x_simulator.Prelude.{
  ℕ, ◌+◌, ◌*◌, ◌/◌, ◌%◌, Option, none, some, if◌then◌else◌, ltb, ◌==◌, update, u32_mod, u32_max,
  u64_mod, add64, sub64,
}
use nebula_x_simulator.Exchange.Order.{Order}

pub record OrderPool : Type 0 where
  pub storage : ℕ → Order
  pub capacity : ℕ
  pub free_head : ℕ
  pub size : ℕ

-- `(uint32_t)fh`
abbrev pub head_of : ℕ → ℕ
head_of fh = fh % u32_mod

-- `(((fh >> 32) + 1) << 32) | idx`, in 64 bits
abbrev pub retag : ℕ → ℕ → ℕ
retag fh idx = (fh / u32_mod + 1) * u32_mod % u64_mod + idx % u32_mod

abbrev pub set_next_free : (ℕ → Order) → ℕ → ℕ → ℕ → Order
set_next_free st i n = update st i (record (st i) { pool_next_free = n })

-- Takes the slot at the head of the free list, with its number.
unfoldable pub allocate : OrderPool → Option (ℕ × OrderPool)
allocate p =
    let head = head_of p.free_head in
    if head == u32_max
    then none
    else some (
      head,
      record p {
        free_head = retag p.free_head (p.storage head).pool_next_free;
        size = add64 p.size 1;
      },
    )

unfoldable pub deallocate : OrderPool → ℕ → OrderPool
deallocate p idx = record p {
  storage = set_next_free p.storage idx (head_of p.free_head);
  free_head = retag p.free_head idx;
  size = sub64 p.size 1;
}

-- The loop of `initFreeList` and `rebuildFreelist`: every slot points at the one after it.
unfoldable pub init_free_list : OrderPool → OrderPool
init_free_list p = record p {
  storage = λ i. record (p.storage i) {
    pool_next_free =
        if ltb (i + 1) p.capacity
        then i + 1
        else if (i + 1) == p.capacity
        then u32_max
        else (p.storage i).pool_next_free;
  };
  free_head = 0;
  size = 0;
}
