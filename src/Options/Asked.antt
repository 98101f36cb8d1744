-- ===== src/Options/Asked.antt =====
-- The settings that an `imbh_open_options` asks for, and that `build_options` (src/lib.rs) makes.
use imbh_c.Common.{ℕ, Text, ◌||◌, Option, none, some, List, [], ◌∷◌, ◌≡◌, ◌≢◌, ◌<◌}
use imbh_c.Common.Int.{ℤ}
use imbh_c.Types.Imbh.{WalMode, Compression, Refresh}
use imbh_c.Types.Ffi.{ImbhWalMode, ImbhCompression, ImbhRefreshMode, ImbhOpenOptions}
use imbh_c.Options.Settings.{Settings, Limits}

-- An interval of 0 ms is a second.
pub data WalAsked : ImbhWalMode → ℕ → WalMode → Type 0 where
  off : {ms : ℕ} → WalAsked ImbhWalMode.off ms WalMode.off
  always : {ms : ℕ} → WalAsked ImbhWalMode.always ms WalMode.always
  every_second : WalAsked ImbhWalMode.interval 0 (WalMode.interval 1000)
  every : {ms : ℕ} → 0 < ms → WalAsked ImbhWalMode.interval ms (WalMode.interval ms)

-- Level 0 is level 3.
pub data CompressionAsked : ImbhCompression → ℤ → Compression → Type 0 where
  uncompressed : {level : ℤ} → CompressionAsked ImbhCompression.none level Compression.none
  lz4 : {level : ℤ} → CompressionAsked ImbhCompression.lz4 level Compression.lz4
  level_three : CompressionAsked ImbhCompression.zstd (ℤ.pos 0) (Compression.zstd (ℤ.pos 3))
  level :
      {level : ℤ}
      → level ≢ ℤ.pos 0
      → CompressionAsked ImbhCompression.zstd level (Compression.zstd level)

-- A number that is 0 keeps what there was.
pub data NumberAsked (old : Option ℕ) : ℕ → Option ℕ → Type 0 where
  kept : NumberAsked old 0 old
  given : {n : ℕ} → 0 < n → NumberAsked old n (some n)

-- Two zeros keep what there was; otherwise a zero is no limit.
pub data RetentionAsked (old : Option Limits) : ℕ → ℕ → Option Limits → Type 0 where
  kept : RetentionAsked old 0 0 old
  days :
      {d : ℕ} → 0 < d → RetentionAsked old d 0 (some (record { days = some d; disk_bytes = none }))
  bytes :
      {n : ℕ} → 0 < n → RetentionAsked old 0 n (some (record { days = none; disk_bytes = some n }))
  days_and_bytes :
      {d n : ℕ}
      → 0 < d
      → 0 < n
      → RetentionAsked old d n (some (record { days = some d; disk_bytes = some n }))

pub data RefreshAsked (old : Option Refresh) : ImbhRefreshMode → ℕ → Option Refresh → Type 0 where
  kept : {ms : ℕ} → RefreshAsked old ImbhRefreshMode.default ms old
  on_query : {ms : ℕ} → RefreshAsked old ImbhRefreshMode.on_query ms (some Refresh.on_query)
  manual : {ms : ℕ} → RefreshAsked old ImbhRefreshMode.manual ms (some Refresh.manual)
  ttl : {ms : ℕ} → RefreshAsked old ImbhRefreshMode.ttl ms (some (Refresh.ttl ms))

-- No keys keep what there was.
pub data KeysAsked (old : List Text) : List Text → List Text → Type 0 where
  kept : KeysAsked old [] old
  given : {k : Text} {ks : List Text} → KeysAsked old (k ∷ ks) (k ∷ ks)

-- The settings `c'` are what the options, with these keys, ask of the settings `c`.
pub record Asked (opts : ImbhOpenOptions) (keys : List Text) (c c' : Settings) : Type 0 where
  pub wal : WalAsked opts.wal_mode opts.wal_interval_ms c'.wal
  pub compression : CompressionAsked opts.compression opts.zstd_level c'.compression
  pub read_only : c'.read_only ≡ (opts.read_only || c.read_only)
  pub stale_reads : c'.stale_reads ≡ (opts.allow_stale_reads || c.stale_reads)
  pub memory_budget : NumberAsked c.memory_budget opts.memory_budget_bytes c'.memory_budget
  pub retention : RetentionAsked c.retention opts.retention_days opts.max_disk_bytes c'.retention
  pub refresh : RefreshAsked c.refresh opts.refresh opts.refresh_ttl_ms c'.refresh
  pub background_ms : NumberAsked c.background_ms opts.maintenance_background_ms c'.background_ms
  pub promote : KeysAsked c.promote keys c'.promote
