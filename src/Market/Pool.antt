-- ===== src/Market/Pool.antt =====
-- The orders of the market's book (`OrderSlot` of src/core/types.h) and their pool
-- (src/core/memory/order_pool.h), as one thread runs it.
use nebula_x_simulator.Prelude.{
  ℕ, ◌+◌, Option, none, some, if◌then◌else◌, ltb, ◌==◌, update, u32_max, add64, sub64,
}
use nebula_x_simulator.Prelude.Int.{ℤ}
use nebula_x_simulator.Core.{OrderSide}
use nebula_x_simulator.Exchange.Pool.{head_of, retag}

pub record OrderSlot : Type 0 where
  pub order_ref : ℕ
  pub side : OrderSide
  pub price : ℤ
  pub shares : ℕ
  pub remaining : ℕ
  pub sequence : ℕ
  pub prev_idx : ℕ
  pub next_idx : ℕ
  pub pool_next_free : ℕ

pub record SlotPool : Type 0 where
  pub storage : ℕ → OrderSlot
  pub capacity : ℕ
  pub free_head : ℕ
  pub size : ℕ

unfoldable pub allocate : SlotPool → Option (ℕ × SlotPool)
allocate p =
    let head = head_of p.free_head in
    if head == u32_max
    then none
    else some (
      head,
      record p {
        free_head = retag p.free_head (p.storage head).pool_next_free;
        size = add64 p.size 1;
      },
    )

unfoldable pub deallocate : SlotPool → ℕ → SlotPool
deallocate p idx = record p {
  storage = update p.storage idx (record (p.storage idx) { pool_next_free = head_of p.free_head });
  free_head = retag p.free_head idx;
  size = sub64 p.size 1;
}

-- The loop of `initFreeList` and `rebuildFreelist`.
unfoldable pub init_free_list : SlotPool → SlotPool
init_free_list p = record p {
  storage = λ i. record (p.storage i) {
    pool_next_free =
        if ltb (i + 1) p.capacity
        then i + 1
        else if (i + 1) == p.capacity
        then u32_max
        else (p.storage i).pool_next_free;
  };
  free_head = 0;
  size = 0;
}

abbrev pub write_slot : SlotPool → ℕ → OrderSlot → SlotPool
write_slot p i s = record p { storage = update p.storage i s }

abbrev pub set_prev : SlotPool → ℕ → ℕ → SlotPool
set_prev p i j = write_slot p i (record (p.storage i) { prev_idx = j })

abbrev pub set_next : SlotPool → ℕ → ℕ → SlotPool
set_next p i j = write_slot p i (record (p.storage i) { next_idx = j })
