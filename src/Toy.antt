-- ===== src/Toy.antt =====
-- A small engine to run the binding on: five rows of logs, and a state that counts the calls that
-- change it.
use imbh_c.Common.{
  true, ltb, ℕ, suc, Text, false, Option, none, some, List, [], ◌∷◌, ◌++◌, codes, length, take,
  drop, ◌==◌, if◌then◌else◌,
}
use imbh_c.Common.Int.{pos}
use imbh_c.Engine.{Engine}
use imbh_c.Types.Proto
use imbh_c.Types.Imbh.{
  WalMode, Compression, done, failed, Category, QueryStats, DbStats, Table, IngestReceipt,
}
use imbh_c.Types.Ffi.{Ptr}
use imbh_c.Options.Settings.{Settings, Limits}
use imbh_c.Memory.{
  table_stats_out, Cell, db_view, log_view, stream_out, u64_out, bool_out, str_view, stats_out,
  db_out, ptrs_view, bytes_view, receipt_out,
}
use imbh_c.Error.{World}
use imbh_c.Common.{refl}
use imbh_c.Common.Utf8.{is_utf8}
use imbh_c.Memory.{Store}
use imbh_c.Memory.{peek, ImbhDb}
use imbh_c.Pointers.Live.{Live}
use imbh_c.Pointers.Arrays.{Str}
use imbh_c.Lgtm.Interface.{Lgtm}

abbrev pub toy_rows : List ℕ
toy_rows = 31 ∷ 28 ∷ 30 ∷ 27 ∷ 33 ∷ []

abbrev pub page_stats : ℕ → QueryStats
page_stats n = record {
  segments_scanned = 1;
  segments_pruned = 0;
  rows_scanned = n;
  rows_returned = n;
  bytes_scanned = 0;
  elapsed = 0;
  used_index = false;
}

abbrev pub toy_stats : DbStats
toy_stats = record {
  buffer_bytes = 10;
  wal_bytes = 20;
  durable_lsn = some 7;
  ingest_queue_depth = 0;
  ingest_dropped = 0;
  ingest_errors = 0;
  tables =
      record {
        table = Table.logs;
        segment_count = 2;
        segment_rows = 5;
        buffer_rows = 1;
        min_time_unix_nano = some (pos 4);
        max_time_unix_nano = some (pos 9);
      }
      ∷ [];
}

abbrev pub toy_receipt : ℕ → IngestReceipt
toy_receipt n = record { accepted = n; rejected = 0; lsn = none; durable = false; is_queued = true }

abbrev pub default_settings : Settings
default_settings = record {
  wal = WalMode.interval 1000;
  compression = Compression.zstd (pos 3);
  read_only = false;
  stale_reads = false;
  memory_budget = none;
  retention = none;
  refresh = none;
  background_ms = none;
  promote = [];
}

-- No runtime can be built after 50 calls. An error is 0 for backpressure, 1 for not-found, anything
-- else for another failure. A builder is its settings.
instance abbrev pub toy : Engine
toy = record {
  State = ℕ;
  Db = ℕ;
  Runtime = Unit {0};
  F64 = ℕ;
  Error = ℕ;
  is_backpressure = λ e. e == 0;
  is_not_found = λ e. e == 1;
  category = λ _. Category.query;
  error_to_string = λ _. codes "failed";
  DbBuilder = Settings;
  Retention = Limits;
  in_memory = default_settings;
  builder = λ _. default_settings;
  wal = λ m b. record b { wal = m };
  set_compression = λ c b. record b { compression = c };
  access_read_only = λ b. record b { read_only = true };
  allow_stale_reads = λ b. record b { stale_reads = true };
  memory_budget_total = λ n b. record b { memory_budget = some n };
  retention_days = λ n. record { days = some n; disk_bytes = none };
  retention_none = record { days = none; disk_bytes = none };
  max_disk_bytes = λ n r. record r { disk_bytes = some n };
  retention = λ r b. record b { retention = some r };
  refresh = λ r b. record b { refresh = some r };
  maintenance_background = λ n b. record b { background_ms = some n };
  promote = λ keys b. record b { promote = keys };
  open_db = λ _ st. (done 1, suc st);
  new_current_thread = λ st. if ltb 50 st then (failed (codes "no"), st) else (done tt, suc st);
  close = λ _ st. (done tt, suc st);
  drop_db = λ _ st. suc st;
  drop_handle = λ _ _ st. suc st;
  ingest_otlp_logs = λ _ _ st. (failed 2, st);
  ingest_otlp_traces = λ _ body st. (done (toy_receipt (length body)), suc st);
  ingest_otlp_metrics = λ _ _ st. (failed 2, st);
  flush = λ _ st. (failed 2, suc st);
  maintain = λ _ st. (failed 2, st);
  compact = λ _ st. (failed 2, st);
  stats = λ _ st. (done toy_stats, st);
  snapshot = λ _ _ st. (failed 2, st);
  durable_through = λ _ st. (done (some 7), st);
  segments = λ _ st. (done [], st);
  PathBuf = Text;
  to_string_lossy = λ p. p;
  segment_files = λ _ _ st. (done [], st);
  time_range_all = record { start = pos 0; end = pos 0 };
  time_range_between = λ a b. record { start = a; end = b };
  export = λ _ _ _ st. (done [], st);
  Schema = Unit {0};
  RecordBatch = List ℕ;
  Stream = List (List ℕ);
  schema_new = λ _. tt;
  schema_empty = tt;
  batch_schema = λ _. tt;
  try_new = λ _ _. done [];
  stream_new = λ _ batches. batches;
  Writer = List ℕ;
  writer_try_new = λ _. done [];
  writer_write = λ batch w. done (w ++ batch);
  writer_finish = λ w. done w;
  sql_collect = λ _ _ st. (failed 2, st);
  LogQuery = ℕ × ℕ;
  MetricQuery = Unit {0};
  SpanMetricsQuery = Unit {0};
  TraceQuery = Unit {0};
  log_try_from = λ q. done (q.offset, q.limit);
  metric_try_from = λ _. done tt;
  span_metrics_try_from = λ _. done tt;
  trace_try_from = λ _. done tt;
  logs_query_batches = λ _ q st. (done (take q.1 (drop q.0 toy_rows) ∷ []), st);
  logs_query_batches_with_stats = λ _ q st. (
    done (take q.1 (drop q.0 toy_rows) ∷ [], page_stats (length (take q.1 (drop q.0 toy_rows)))),
    suc st,
  );
  metrics_range_batches = λ _ _ st. (failed 2, st);
  traces_span_metrics_batches = λ _ _ st. (failed 2, st);
  metrics_instant = λ _ _ st. (failed 2, st);
  logs_volume_by = λ _ _ _ _ st. (failed 2, st);
  logs_count = λ _ _ st. (done 5, st);
  TraceId = Text;
  SpanId = Text;
  trace_to_hex = λ t. t;
  span_to_hex = λ t. t;
  traces_search = λ _ _ st. (failed 2, st);
  MetricPointsQuery = Unit {0};
  points_gauge = λ _. tt;
  points_sum = λ _. tt;
  points_histogram = λ _. tt;
  points_filter = λ _ _ q. q;
  points_range = λ _ q. q;
  points_limit = λ _ q. q;
  metrics_points_batches = λ _ _ st. (failed 2, st);
  AnyValue = Text;
  any_str = λ t. t;
  canonical_json_object = λ _. codes "{}";
  attrs_names = λ _ st. (failed 2, st);
  attrs_values = λ _ _ st. (failed 2, st);
  metrics_catalog = λ _ st. (failed 2, st);
  metrics_series = λ _ _ st. (failed 2, st);
  metrics_exemplars = λ _ _ st. (failed 2, st);
}

instance abbrev pub toy_lgtm : Lgtm
toy_lgtm = record {
  Prom = Unit {0};
  Log = Unit {0};
  LogFilter = Unit {0};
  Trace = Unit {0};
  Bounds = Unit {0};
  LogStreamSchema = Unit {0};
  context_default = record { metrics = [] };
  translate_promql = λ _ _. failed (codes "no");
  translate_logql = λ _ _. failed (codes "no");
  translate_traceql = λ _ _. failed (codes "no");
  execute_promql_batches = λ _ _ _ st. (failed (codes "no"), st);
  service_only = tt;
  fetch_bounds_new = λ _ _. done tt;
  build_log_query = λ _ _. failed (codes "no");
  execute_logql_batches = λ _ _ _ _ st. (failed (codes "no"), st);
  execute_traceql_batches = λ _ _ _ st. (failed (codes "no"), st);
  trace_from_hex = λ _. none;
  get_batches = λ _ _ st. (failed 2, st);
  debug_str = λ t. t;
}

abbrev pub two_per_page : Proto.LogQuery ℕ
two_per_page = record (Proto.log_query_default {F = ℕ}) { limit = 2 }

-- A handle at 1, a log query at 2, out-parameters at 3 to 5, a string at 6.
abbrev pub cells : List (Ptr × Cell)
cells =
    (1, db_view.wrap (record { db = 1; rt = tt }))
    ∷ (2, log_view.wrap two_per_page)
    ∷ (3, stream_out.wrap none)
    ∷ (4, u64_out.wrap none)
    ∷ (5, bool_out.wrap none)
    ∷ (6, str_view.wrap (codes "api"))
    ∷ (7, stats_out.wrap none)
    ∷ (8, db_out.wrap none)
    ∷ (9, ptrs_view.wrap (6 ∷ 6 ∷ []))
    ∷ (10, table_stats_out.wrap none)
    ∷ (11, ptrs_view.wrap (6 ∷ 0 ∷ 6 ∷ []))
    ∷ (12, bytes_view.wrap (10 ∷ 20 ∷ 30 ∷ []))
    ∷ (13, receipt_out.wrap none)
    ∷ []

abbrev cell_at : List (Ptr × Cell) → Ptr → Option Cell
cell_at [] p = none
cell_at ((q, c) ∷ rest) p = if p == q then some c else cell_at rest p

abbrev pub toy_mem : Ptr → Option Cell
toy_mem p = cell_at cells p

abbrev pub toy_world : World
toy_world = record {
  store = record { mem = toy_mem; last = 100; engine = 0 };
  thread = 1;
  last_error = λ _. none;
}

abbrev pub toy_handle : ImbhDb
toy_handle = record { db = 1; rt = tt }

abbrev pub toy_store : Store
toy_store = toy_world.store

pub db_live : Live db_view toy_store 1 toy_handle
unfolding peek
db_live = record { not_null = refl; holds = refl }

pub builder_live : Live log_view toy_store 2 two_per_page
unfolding peek
builder_live = record { not_null = refl; holds = refl }

pub api-Str : Str toy_store 6 (codes "api")
unfolding peek is_utf8 codes
api-Str = record { live = record { not_null = refl; holds = refl }; valid = refl }

pub pointers_live : Live ptrs_view toy_store 9 (6 ∷ (6 ∷ []))
unfolding peek
pointers_live = record { not_null = refl; holds = refl }
