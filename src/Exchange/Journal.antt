-- ===== src/Exchange/Journal.antt =====
-- What the engine writes beside the books: the write-ahead log's ring (src/exchange/wal.h,
-- wal.cpp), the ring of recent trades (trade_pool.h) and the counters (metrics.h).
use nebula_x_simulator.Prelude.{ℕ, ◌%◌, Bool, ◌&&◌, ltb, ◌==◌, update, add64}

pub record WalEntry : Type 0 where
  pub type : ℕ
  pub side : ℕ
  pub locate : ℕ
  pub price : ℕ
  pub quantity : ℕ
  pub user_id : ℕ
  pub order_id : ℕ
  pub wal_seq : ℕ

-- 512 MB of entries of 40 bytes.
abbrev pub wal_entries : ℕ
wal_entries = 13421772

pub record WalWriter : Type 0 where
  pub base : ℕ → WalEntry
  pub total : ℕ

unfoldable pub append : WalWriter → WalEntry → WalWriter
append w e = record { base = update w.base (w.total % wal_entries) e; total = add64 w.total 1 }

unfoldable pub need_checkpoint : WalWriter → Bool
need_checkpoint w = ltb 0 w.total && w.total % wal_entries == 0

pub record TradeEntry : Type 0 where
  pub trade_id : ℕ
  pub buy_order_id : ℕ
  pub sell_order_id : ℕ
  pub price : ℕ
  pub quantity : ℕ
  pub buyer_id : ℕ
  pub seller_id : ℕ
  pub timestamp : ℕ
  pub seq : ℕ

abbrev pub trade_capacity : ℕ
trade_capacity = 1048576

pub record TradePool : Type 0 where
  pub entries : ℕ → TradeEntry
  pub write_idx : ℕ

pub record IoCounters : Type 0 where
  pub new_orders : ℕ
  pub cancels : ℕ
  pub book_queries : ℕ
  pub trades : ℕ
  pub errors : ℕ
  pub order_pool_used : ℕ
