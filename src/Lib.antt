-- ===== src/Lib.antt =====
-- NebulaX-Simulator: an exchange, the trading side that sends it orders, and the replay of recorded
-- market data that drives both.
--
-- A replay (src/replay) reads the frames of an ITCH file, the ITCH parser (src/exchange/itch_parser)
-- turns a frame into an order event, and the matching engine (src/exchange/matching_engine) takes it.
-- The engine keeps a book per stock (src/exchange/order_book), all over one pool of order slots
-- (order_pool.h) and one index by order number (order_map.h), and writes a log, a trade ring and
-- counters (wal, trade_pool.h, metrics.h). On the trading side the strategies vote
-- (src/strategy/base/arbitrate.h), the risk manager (src/risk) admits an order, and the order manager
-- (src/oms) follows its life. The execution engine (src/execution) is the chain of these steps, the
-- worker (src/sim) drives it at the end of each segment, and the simulator (src/exchange/
-- exchange_simulator) joins both sides: it broadcasts the market's events to books of the trading
-- side's own (src/market) and to the workers, and reports fills and cancels back.
--
-- Which file models which part:
--   Exchange/Order, Pool, Levels   order.h, order_pool.h and the levels of order_book.h
--   Exchange/Book                  order_book.cpp, one function per method. Book/Chain, Priority
--                                  and Sorted have the queues that the linked slots stand for;
--                                  Removal, Erasure, Takeoff, Repairs, Upkeep are about removeOrder and
--                                  reduceOrderQty, Arrival, Growth and Placing about addOrder
--   Exchange/Index                 order_map.h; Index/Chains is about a bucket's chain, Treeify about
--                                  its move to the ordered map, Room, Recent and Insertion about an
--                                  insertion
--   Exchange/Protocol, Journal     protocol.h; wal, trade_pool.h, metrics.h
--   Exchange/Engine                matching_engine.cpp: the matching loops. Engine/Requests has
--                                  processAdd, processCancel, processCancelShares, processReplace and
--                                  getBook, Engine/Recovery recoverFromWal and recoverFromShared;
--                                  Accounting, Endings, AddReport and Progress are about the matching, Cancels about
--                                  the cancels
--   Exchange/ItchParser            itch_parser.cpp
--   Core, Oms                      core/types.h, oms/order.h, oms/order_manager.h
--   Risk                           risk/risk_manager.h
--   Strategy/Arbitrate             strategy/base/arbitrate.h
--   Strategy/Signal, OrderFlow,    strategy/base/signal.h, strategy.h and the two strategies under
--   BookImbalance                  strategy/tick; OrderFlow/Window is about its ring
--   Venue                          exchange/i_exchange_simulator.h, as operations with laws
--   Execution                      execution/execution_engine.h over any exchange. Drives and Runs are
--                                  about the order manager, Refusals about the gate, Flatten about the
--                                  cancels, Limits and Positions about the positions
--   Worker                         sim/sim_worker.h. Scaled is about the strengths, Trades and Returns
--                                  about the end of a segment
--   Market                         market/book and core/memory/order_pool.h: Table is the price table,
--                                  with Walk, Lookup, Writes, FiniteMap and Erased about it; Book and
--                                  Consumer are the books
--   Simulator                      exchange/exchange_simulator.cpp, bound as in sim_main.cpp; Laws,
--                                  Blocking, Flattening, Foreign, Segment and Deletes are about what
--                                  it joins
--   Replay                         replay/itch_replay_source.cpp, replay/replay_engine.cpp; Frames is
--                                  about the reading, Segments, Cutting and Schedule about
--                                  the loop
--   Prelude, Samples               numbers, lists and integers; tests and witnesses
--
-- State and operations. A method is a function from its object's state to the new state, with the
-- result or the responses that it appends. An `Order*` is a slot number of the pool. The books' pool
-- and index belong to the engine; `load_book` and `store_book` move them into a book and back. The index
-- stands in the books as what order_map.h does while its nodes last and its chains are short: a number
-- keeps the slots entered under it, a search finds the last one and an erase takes only that one out.
-- That an insertion fails when the nodes are spent, which the books do not look at, and that a bucket
-- in the ordered map keeps one slot for a number, is modelled in Exchange/Index alone. The two
-- matching functions are one loop with the taker's side as an argument.
--
-- Numbers. Quantities and prices of the exchange wrap at 32 bits, counters and order numbers at 64.
-- The trading side's signed 64-bit money and prices are integers without a bound, also in the profit
-- that a fill books; the two prices that mark free and erased places of the price table are
-- constructors, so no order has them.
--
-- Bounds. A walk along a level's list has the pool's capacity as fuel: a list has no more slots. A
-- matching loop has one round more than the pool has slots: each round but the last empties one. The
-- replay loop has one turn more than the file has bytes: each frame takes two at least. A search in
-- the price table sees each place once at most, as in the source; the search for a free place after
-- the table has grown has the table's size as fuel, and half of its places are free. A walk along a
-- chain of the index takes its fuel as an argument and has no result when it is spent; one step more
-- than the chain has nodes is enough.
--
-- Not modelled: the compare-and-swap retries and memory orders (one thread runs each operation), the
-- copy of the index under src/core (the same code over the other order type, whose insertion does not
-- say whether the order was taken), snapshot and checkpoint files, system calls, log output, the
-- reading of the configuration and the writing of results. The mutex of the execution engine
-- is modelled by its effect in one thread: a call that would take it twice does not return. A worker at
-- the end of its segment is held apart from the simulator's workers: what the broadcast of its own
-- order tells it then is not kept.
pub mod Prelude
pub mod Exchange
pub mod Samples
pub mod Core
pub mod Oms
pub mod Risk
pub mod Strategy
pub mod Replay
pub mod Venue
pub mod Execution
pub mod Worker
pub mod Market
pub mod Simulator
