-- ===== src/Samples/MarketTests.antt =====
-- The market's book and its price table on small inputs.
use nebula_x_simulator.Prelude.{◌≡◌, ◌≢◌, refl, sym, ◌∙◌, true, false, none, [], arith, u32_max}
use nebula_x_simulator.Prelude.Int.{pos}
use nebula_x_simulator.Core.{none_side, buy}
use nebula_x_simulator.Core.Event.{MarketEvent, EventBody, OrderInfo}
use nebula_x_simulator.Market.Pool.{SlotPool, allocate, init_free_list}
use nebula_x_simulator.Market.Table.{
  full, miss, new_table, search_price, access, erase, best_qty, probe,
}
use nebula_x_simulator.Market.FiniteMap.{Accessed, access-Accessed}
use nebula_x_simulator.Market.Erased.{Erased, erase-Erased, new_table-IsProbed}
use nebula_x_simulator.Market.Book.{MarketBook, add, execute, best_bid, best_bid_volume}
use nebula_x_simulator.Market.Consumer.{Consumer}
use nebula_x_simulator.Strategy.OrderFlow.{order_flow}
use nebula_x_simulator.Simulator.Deletes.{SameWindow, heard_after, delete_unheard}

misses : search_price (new_table true) (pos 1000) ≢ full
unfolding search_price new_table probe
misses e = ground (arith, sym first ∙ e)
  where
    first : search_price (new_table true) (pos 1000) ≡ miss 34 none
    first = refl

access-Accessed_example :
    Accessed
      (new_table true)
      (pos 1000)
      (access (new_table true) (pos 1000)).0
      (access (new_table true) (pos 1000)).1
access-Accessed_example =
    access-Accessed (new_table true) (pos 1000) (new_table-IsProbed true) misses

erase-Erased_example :
    let t = (access (new_table true) (pos 1000)).0 in Erased t (pos 1000) (erase t (pos 1000))
erase-Erased_example =
    erase-Erased (access (new_table true) (pos 1000)).0 (pos 1000)
      (access-Accessed (new_table true) (pos 1000) (new_table-IsProbed true) misses).probed

abbrev pub slots : SlotPool
unfolding init_free_list
slots = init_free_list (record {
  storage = λ i. record {
    order_ref = 0;
    side = none_side;
    price = pos 0;
    shares = 0;
    remaining = 0;
    sequence = 0;
    prev_idx = u32_max;
    next_idx = u32_max;
    pool_next_free = u32_max;
  };
  capacity = 4;
  free_head = 0;
  size = 0;
})

abbrev no_orders : MarketBook
no_orders = record { bids = new_table true; asks = new_table false; pool = slots; index = λ i. [] }

-- The only order at a price is executed in full. Its level has left the table by then, comes back
-- empty, and loses the order once more: the price stays with a wrapped count.
abbrev executed_book : MarketBook
executed_book = (execute (add no_orders 7 buy (pos 1000) 40 1).0 7 40).0

ghost_level : best_bid executed_book ≡ pos 1000
unfolding add execute best_bid new_table access erase allocate slots
ghost_level = refl

ghost_volume : best_bid_volume executed_book ≡ 4294967256
unfolding add execute best_bid_volume new_table access erase best_qty allocate slots
ghost_volume = refl

abbrev pub books : Consumer
books = record {
  pool = slots;
  index = λ i. [];
  books = λ l. none;
  last_tick = record { timestamp = 0; seq_id = 0; symbol_id = 0; last_price = pos 0; volume = 0 };
  has_tick = false;
  tick_seq = 0;
  order_seq = 0;
}

abbrev deleted : OrderInfo
deleted = record { side = buy; price = pos 0; shares = 0; order_ref = 7; new_order_ref = 0 }

abbrev deletion : MarketEvent
deletion = record { body = EventBody.delete deleted; seq_id = 0; locate = 5; timestamp = 9 }

delete_unheard_example :
    SameWindow (order_flow (pos 500)) (heard_after (order_flow (pos 500)) books deletion)
delete_unheard_example = delete_unheard (order_flow (pos 500)) books deletion deleted refl refl
