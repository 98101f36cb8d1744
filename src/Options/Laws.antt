-- ===== src/Options/Laws.antt =====
-- `build_options` (src/lib.rs) makes the settings that its options ask for.
use imbh_c.Common.{
  ℕ, zero, suc, Text, Bool, true, false, ◌||◌, Option, none, some, List, ◌≡◌, arith, ltb,
  if◌then◌else◌,
}
use imbh_c.Common.Int.{ℤ, is_zero}
use imbh_c.Engine.{Engine}
use imbh_c.Types.Imbh.{Compression, Refresh}
use imbh_c.Types.Ffi.{ImbhCompression, ImbhRefreshMode, ImbhOpenOptions}
use imbh_c.Options.{is_empty, wal_of, compression_of}
use imbh_c.Options.Settings.{BuilderLaws, Settings, Limits}
use imbh_c.Options.Asked.{CompressionAsked, Asked}

zstd_level :
    (level : ℤ) (b : Bool)
    → is_zero level ≡ b
    → CompressionAsked ImbhCompression.zstd level (Compression.zstd (if b then ℤ.pos 3 else level))
unfolding is_zero
zstd_level (ℤ.pos zero) true h = CompressionAsked.level_three
zstd_level (ℤ.pos (suc n)) true h = absurd (ground arith)
zstd_level (ℤ.negsuc n) true h = cc
zstd_level (ℤ.pos zero) false h = cc
zstd_level (ℤ.pos (suc n)) false h = CompressionAsked.level (λ e. ground arith)
zstd_level (ℤ.negsuc n) false h = CompressionAsked.level (λ e. cc)

abbrev pick : Bool → ℕ → Option ℕ → Option ℕ
pick test n old = if test then some n else old

abbrev limited : Bool → Bool → ℕ → ℕ → Option Limits → Option Limits
limited false false d n old = old
limited true false d n old = some (record { days = some d; disk_bytes = none })
limited false true d n old = some (record { days = none; disk_bytes = some n })
limited true true d n old = some (record { days = some d; disk_bytes = some n })

abbrev refreshed : ImbhRefreshMode → ℕ → Option Refresh → Option Refresh
refreshed ImbhRefreshMode.default ms old = old
refreshed ImbhRefreshMode.on_query ms old = some Refresh.on_query
refreshed ImbhRefreshMode.manual ms old = some Refresh.manual
refreshed ImbhRefreshMode.ttl ms old = some (Refresh.ttl ms)

module _ ⦃eng : Engine⦄ (laws : BuilderLaws) where
  open laws use {settings, limits}

  -- What every call of the chain makes of the settings.
  abbrev made : ImbhOpenOptions → List Text → Settings → Settings
  made opts keys c = record {
    wal = wal_of opts.wal_mode opts.wal_interval_ms;
    compression = compression_of opts.compression opts.zstd_level;
    read_only = opts.read_only || c.read_only;
    stale_reads = opts.allow_stale_reads || c.stale_reads;
    memory_budget = pick (ltb 0 opts.memory_budget_bytes) opts.memory_budget_bytes c.memory_budget;
    retention =
        limited (ltb 0 opts.retention_days) (ltb 0 opts.max_disk_bytes) opts.retention_days
          opts.max_disk_bytes c.retention;
    refresh = refreshed opts.refresh opts.refresh_ttl_ms c.refresh;
    background_ms =
        pick (ltb 0 opts.maintenance_background_ms) opts.maintenance_background_ms c.background_ms;
    promote = if is_empty keys then c.promote else keys;
  }
