-- ===== src/Options.antt =====
-- `build_options` of src/lib.rs: the C options struct as a chain of builder calls.
pub mod Settings
pub mod Asked
pub mod Laws
use imbh_c.Common.{ℕ, Bool, true, false, ◌||◌, List, [], ◌∷◌, ltb, ◌==◌, if◌then◌else◌}
use imbh_c.Common.Int.{ℤ, pos, is_zero}
use imbh_c.Engine.{Engine}
use imbh_c.Types.Imbh.{WalMode, Compression, Refresh}
use imbh_c.Types.Ffi.{ImbhWalMode, ImbhCompression, ImbhRefreshMode, ImbhOpenOptions}
use imbh_c.Memory.{Call, pure, ◌>>=◌}
use imbh_c.Pointers.{read_promote_keys}

-- `let wal = match opts.wal_mode { … }`
unfoldable pub wal_of : ImbhWalMode → ℕ → WalMode
wal_of ImbhWalMode.off ms = WalMode.off
wal_of ImbhWalMode.always ms = WalMode.always
wal_of ImbhWalMode.interval ms = WalMode.interval (if ms == 0 then 1000 else ms)

-- `let compression = match opts.compression { … }`
unfoldable pub compression_of : ImbhCompression → ℤ → Compression
compression_of ImbhCompression.none level = Compression.none
compression_of ImbhCompression.lz4 level = Compression.lz4
compression_of ImbhCompression.zstd level =
    Compression.zstd (if is_zero level then pos 3 else level)

abbrev pub is_empty {ℓ} : {A : Type ℓ} → List A → Bool
is_empty [] = true
is_empty (_ ∷ _) = false

module _ ⦃eng : Engine⦄ where
  -- `match opts.refresh { … }`
  unfoldable pub set_refresh : ImbhRefreshMode → ℕ → eng.DbBuilder → eng.DbBuilder
  set_refresh ImbhRefreshMode.default ttl b = b
  set_refresh ImbhRefreshMode.on_query ttl b = eng.refresh Refresh.on_query b
  set_refresh ImbhRefreshMode.manual ttl b = eng.refresh Refresh.manual b
  set_refresh ImbhRefreshMode.ttl ttl b = eng.refresh (Refresh.ttl ttl) b

  -- `if opts.retention_days > 0 || opts.max_disk_bytes > 0 { … }`
  unfoldable pub set_retention : ℕ → ℕ → eng.DbBuilder → eng.DbBuilder
  set_retention days max_disk b =
      if ltb 0 days || ltb 0 max_disk
      then (let r = if ltb 0 days then eng.retention_days days else eng.retention_none in
          let r' = if ltb 0 max_disk then eng.max_disk_bytes max_disk r else r in
          eng.retention r' b)
      else b

  -- The calls up to the promoted keys.
  unfoldable pub set_options : ImbhOpenOptions → eng.DbBuilder → eng.DbBuilder
  unfolding wal_of compression_of set_refresh set_retention
  set_options opts b =
      let wal = wal_of opts.wal_mode opts.wal_interval_ms in
      let compression = compression_of opts.compression opts.zstd_level in
      let b1 = eng.set_compression compression (eng.wal wal b) in
      let b2 = if opts.read_only then eng.access_read_only b1 else b1 in
      let b3 = if opts.allow_stale_reads then eng.allow_stale_reads b2 else b2 in
      let b4 =
        if ltb 0 opts.memory_budget_bytes
        then eng.memory_budget_total opts.memory_budget_bytes b3
        else b3 in
      let b5 = set_retention opts.retention_days opts.max_disk_bytes b4 in
      let b6 = set_refresh opts.refresh opts.refresh_ttl_ms b5 in
      if ltb 0 opts.maintenance_background_ms
      then eng.maintenance_background opts.maintenance_background_ms b6
      else b6

  unfoldable pub build_options : ImbhOpenOptions → eng.DbBuilder → Call eng.DbBuilder
  build_options opts b = do
    promote ← read_promote_keys opts.promote_keys opts.promote_keys_len
    pure (if is_empty promote then set_options opts b else eng.promote promote (set_options opts b))
