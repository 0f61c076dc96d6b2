-- ===== src/Samples/OmsTests.antt =====
-- The order manager on small inputs.
use nebula_x_simulator.Prelude.{◌≡◌, ◌-◌, ◌+◌, min, refl, List, [], ◌∷◌, some, none, arith}
use nebula_x_simulator.Prelude.Int.{pos}
use nebula_x_simulator.Core.{Order, buy, limit, lookup, put, has}
use nebula_x_simulator.Oms.{
  OrderManager, OrderStatus, Entry, new_order, on_accept, on_fill, status, first_entry,
}
use nebula_x_simulator.Oms.Reports.{Report, accept, fill, ask_cancel, cancel, apply_all, apply}
use nebula_x_simulator.Oms.Diagram.{◌⟶*◌}
use nebula_x_simulator.Oms.Lifecycle.{apply_all-⟶*, apply_all_final, IsFinal, is_filled}
use nebula_x_simulator.Oms.Steps.{IsValid}
use nebula_x_simulator.Oms.Accounting.{
  AllValid, apply_all-AllValid, new_order-AllValid, on_fill_exact,
}
use nebula_x_simulator.Oms.Index.{IsIndexed, apply_all-IsIndexed, new_order-IsIndexed}
use nebula_x_simulator.Samples.{empty_manager}

abbrev order : Order
order = record {
  order_id = 0;
  strategy_id = 2;
  symbol_id = 5;
  side = buy;
  type = limit;
  price = pos 1000;
  quantity = 9;
  timestamp = 0;
}

abbrev registered : OrderManager
registered = (new_order empty_manager order).0

-- Accepted, filled in two parts of which the second is too large, and reported cancelled late.
abbrev reports : List Report
reports = accept 1 77 ∷ fill 1 4 (pos 1000) ∷ fill 1 6 (pos 990) ∷ cancel 1 ∷ []

abbrev done : OrderManager
done = apply_all registered (accept 1 77 ∷ fill 1 9 (pos 1000) ∷ [])

apply_all-⟶*_example : status registered 1 ⟶* status (apply_all registered reports) 1
apply_all-⟶*_example = apply_all-⟶* registered reports 1

done_filled : status done 1 ≡ OrderStatus.filled
unfolding apply_all status new_order lookup apply on_fill on_accept put
done_filled = refl

done-IsFinal : IsFinal (status done 1)
unfolding apply_all status new_order lookup apply on_fill on_accept put
done-IsFinal = is_filled

apply_all_final_example : status (apply_all done (ask_cancel 1 ∷ cancel 1 ∷ [])) 1 ≡ status done 1
apply_all_final_example = apply_all_final done (ask_cancel 1 ∷ cancel 1 ∷ []) 1 done-IsFinal

empty_AllValid : AllValid empty_manager
unfolding lookup
empty_AllValid id e found = ground arith

empty_IsIndexed : IsIndexed empty_manager
unfolding lookup has
empty_IsIndexed = record { symbols = λ k id. refl; strategies = λ k id. refl }

empty_unused : lookup empty_manager.next_id empty_manager.orders ≡ none
unfolding lookup
empty_unused = refl

new_order-IsIndexed_example : IsIndexed registered
new_order-IsIndexed_example = new_order-IsIndexed empty_manager order empty_unused empty_IsIndexed

new_order-AllValid_example : AllValid registered
new_order-AllValid_example = new_order-AllValid empty_manager order (omega arith) empty_AllValid

apply_all-AllValid_example : AllValid (apply_all registered reports)
apply_all-AllValid_example =
    apply_all-AllValid registered reports
      (new_order-AllValid empty_manager order (omega arith) empty_AllValid)

apply_all-IsIndexed_example : IsIndexed (apply_all registered reports)
apply_all-IsIndexed_example =
    apply_all-IsIndexed registered reports
      (new_order-IsIndexed empty_manager order empty_unused empty_IsIndexed)

abbrev accepted : OrderManager
accepted = apply registered (accept 1 77)

abbrev accepted_entry : Entry
accepted_entry = record (first_entry (record order { order_id = 1 })) {
  status = OrderStatus.submitted;
  exchange_ref = 77;
  update_time = 1;
}

accepted_found : lookup 1 accepted.orders ≡ some accepted_entry
unfolding apply new_order on_accept lookup put
accepted_found = refl

accepted_IsValid : IsValid accepted_entry
accepted_IsValid = record {
  fits = omega arith;
  balance = refl;
  full = λ e. cc;
  part = λ e. cc;
  waiting = λ e. cc;
  accepted = λ e. refl;
  refused = λ e. cc;
}

-- Twelve shares come for an order of nine.
on_fill_exact_example :
    (e' : Entry) × (lookup 1 (on_fill accepted 1 12 (pos 990)).orders ≡ some e')
    × (e'.filled ≡ accepted_entry.filled + min 12 accepted_entry.remaining)
    × (e'.remaining ≡ accepted_entry.remaining - min 12 accepted_entry.remaining)
on_fill_exact_example =
    on_fill_exact accepted 1 12 (pos 990) accepted_entry accepted_found accepted_IsValid refl
      (omega arith)
