-- ===== src/Options/Settings.antt =====
-- What is documented of `imbh::DbBuilder`, which `build_options` of src/lib.rs calls: each method
-- sets its own setting and leaves the others alone.
use imbh_c.Common.{ℕ, Text, Bool, true, Option, none, some, List, ◌≡◌}
use imbh_c.Engine.{Engine}
use imbh_c.Types.Imbh.{WalMode, Compression, Refresh}

-- How long and how much to keep, where that is limited.
pub record Limits : Type 0 where
  pub days : Option ℕ
  pub disk_bytes : Option ℕ

-- The settings of a builder. `none` stands for the engine's default.
pub record Settings : Type 0 where
  pub wal : WalMode
  pub compression : Compression
  pub read_only : Bool
  pub stale_reads : Bool
  pub memory_budget : Option ℕ
  pub retention : Option Limits
  pub refresh : Option Refresh
  pub background_ms : Option ℕ
  pub promote : List Text

pub record BuilderLaws ⦃eng : Engine⦄ : Type 0 where
  pub settings : eng.DbBuilder → Settings
  pub limits : eng.Retention → Limits
  pub limits-days :
      (n : ℕ) → limits (eng.retention_days n) ≡ record { days = some n; disk_bytes = none }
  pub limits-none : limits eng.retention_none ≡ record { days = none; disk_bytes = none }
  pub limits-max_disk_bytes :
      (n : ℕ) (r : eng.Retention)
      → limits (eng.max_disk_bytes n r) ≡ record (limits r) { disk_bytes = some n }
  pub settings-wal :
      (m : WalMode) (b : eng.DbBuilder) → settings (eng.wal m b) ≡ record (settings b) { wal = m }
  pub settings-compression :
      (c : Compression) (b : eng.DbBuilder)
      → settings (eng.set_compression c b) ≡ record (settings b) { compression = c }
  pub settings-read_only :
      (b : eng.DbBuilder)
      → settings (eng.access_read_only b) ≡ record (settings b) { read_only = true }
  pub settings-stale_reads :
      (b : eng.DbBuilder)
      → settings (eng.allow_stale_reads b) ≡ record (settings b) { stale_reads = true }
  pub settings-memory_budget :
      (n : ℕ) (b : eng.DbBuilder)
      → settings (eng.memory_budget_total n b) ≡ record (settings b) { memory_budget = some n }
  pub settings-retention :
      (r : eng.Retention) (b : eng.DbBuilder)
      → settings (eng.retention r b) ≡ record (settings b) { retention = some (limits r) }
  pub settings-refresh :
      (r : Refresh) (b : eng.DbBuilder)
      → settings (eng.refresh r b) ≡ record (settings b) { refresh = some r }
  pub settings-background :
      (n : ℕ) (b : eng.DbBuilder)
      → settings (eng.maintenance_background n b) ≡ record (settings b) { background_ms = some n }
  pub settings-promote :
      (keys : List Text) (b : eng.DbBuilder)
      → settings (eng.promote keys b) ≡ record (settings b) { promote = keys }
