-- ===== src/Examples/Requests.antt =====
-- The theorems at concrete inputs: options, opens, string arrays, statistics, ingest, PromQL names.
use imbh_c.Common.{Text, false, none, some, List, [], ◌∷◌, ◌≡◌, refl, codes, arith}
use imbh_c.Common.Int.{ℤ}
use imbh_c.Toy.{toy, toy_receipt, toy_world, toy_store, toy_stats, db_live, api-Str}
use imbh_c.Types.Imbh.{done, MetricMeta}
use imbh_c.Types.Ffi.{
  null, ImbhTable, ImbhWalMode, ImbhCompression, ImbhRefreshMode, ImbhOpenOptions, ImbhStats,
}
use imbh_c.Memory.{
  err, peek, CallError, table_stats_out, ptrs_view, bytes_view, receipt_out, stats_out, update,
}
use imbh_c.Memory
use imbh_c.Error.{clear_last_error, ImbhError, value, guard, settle}
use imbh_c.Pointers.{read_str_array, read_promote_keys}
use imbh_c.Pointers.Live.{Live}
use imbh_c.Pointers.Arrays.{BadStr, FirstBad, read_str_array-FirstBad}
use imbh_c.Options.Settings.{BuilderLaws, Settings}
use imbh_c.Options.Asked.{Asked}
use imbh_c.Ops.{imbh_db_stats, imbh_db_table_stats}
use imbh_c.Ingest.Receipts.{
  Signal, engine_ingest, ingest, Body, Slot, Acknowledged, ingest-Acknowledged,
}
use imbh_c.Ops.Totals.{Summarizes, imbh_db_stats-Summarizes}
use imbh_c.Ops.Lookup.{Answers, imbh_db_table_stats-Answers}
use imbh_c.Lifecycle.{imbh_db_open_memory}
use imbh_c.Api.Opens.{OpenCall, run_open, run_open-undone}
use imbh_c.Lgtm.Context.{promql_context}
use imbh_c.Lgtm.Translation.{ResolvesAll, promql_context-ResolvesAll}

abbrev toy_laws : BuilderLaws
toy_laws = record {
  settings = λ b. b;
  limits = λ r. r;
  limits-days = λ n. refl;
  limits-none = refl;
  limits-max_disk_bytes = λ n r. refl;
  settings-wal = λ m b. refl;
  settings-compression = λ c b. refl;
  settings-read_only = λ b. refl;
  settings-stale_reads = λ b. refl;
  settings-memory_budget = λ n b. refl;
  settings-retention = λ r b. refl;
  settings-refresh = λ r b. refl;
  settings-background = λ n b. refl;
  settings-promote = λ keys b. refl;
}

-- Zeros, but for two promoted keys.
abbrev zeroed : ImbhOpenOptions
zeroed = record {
  wal_mode = ImbhWalMode.off;
  wal_interval_ms = 0;
  compression = ImbhCompression.none;
  zstd_level = ℤ.pos 0;
  read_only = false;
  allow_stale_reads = false;
  memory_budget_bytes = 0;
  retention_days = 0;
  max_disk_bytes = 0;
  refresh = ImbhRefreshMode.default;
  refresh_ttl_ms = 0;
  maintenance_background_ms = 0;
  promote_keys = 9;
  promote_keys_len = 2;
}

abbrev two_keys : List Text
two_keys = codes "api" ∷ (codes "api" ∷ [])

no_out_parameter : (run_open OpenCall.in_memory null toy_world).0 ≡ value ImbhError.invalid_arg
unfolding run_open imbh_db_open_memory guard settle Memory.reject_if Memory.◌>>=◌
no_out_parameter = refl

run_open-undone_example :
    (run_open OpenCall.in_memory null toy_world).1.store.mem ≡ toy_world.store.mem
run_open-undone_example =
    run_open-undone OpenCall.in_memory null toy_world no_out_parameter (λ h. cc)

gap_live : Live ptrs_view toy_store 11 (6 ∷ (0 ∷ (6 ∷ [])))
unfolding peek
gap_live = record { not_null = refl; holds = refl }

read_str_array-FirstBad_example :
    (read_str_array 11 3 toy_store
      ≡ (err (CallError.invalid_arg (codes "null string pointer")), toy_store))
    × (read_promote_keys 11 3 toy_store
        ≡ (err (CallError.invalid_arg (codes "null string pointer")), toy_store))
read_str_array-FirstBad_example =
    read_str_array-FirstBad toy_store 11 3 gap_live (omega arith)
      (FirstBad.later api-Str (FirstBad.here (BadStr.null_pointer refl)))

table_slot_live : Live table_stats_out toy_store 10 none
unfolding peek
table_slot_live = record { not_null = refl; holds = refl }

imbh_db_table_stats-Answers_example :
    Answers ImbhTable.logs toy_stats 10 0 toy_world
      (imbh_db_table_stats 1 ImbhTable.logs 10 toy_world)
imbh_db_table_stats-Answers_example =
    imbh_db_table_stats-Answers 1 ImbhTable.logs 10 toy_world db_live table_slot_live refl

stats_slot_live : Live stats_out toy_store 7 none
unfolding peek
stats_slot_live = record { not_null = refl; holds = refl }

imbh_db_stats-Summarizes_example :
    (c : ImbhStats) × Summarizes toy_stats c
    × (imbh_db_stats 1 7 toy_world ≡ (
      value ImbhError.success,
      clear_last_error (record toy_world {
        store = record toy_store {
          mem = update toy_store.mem 7 (some (stats_out.wrap (some c)));
          engine = 0;
        };
      }),
    ))
imbh_db_stats-Summarizes_example =
    imbh_db_stats-Summarizes 1 7 toy_world db_live stats_slot_live refl

body_live : Live bytes_view toy_store 12 (10 ∷ (20 ∷ (30 ∷ [])))
unfolding peek
body_live = record { not_null = refl; holds = refl }

receipt_slot_live : Live receipt_out toy_store 13 none
unfolding peek
receipt_slot_live = record { not_null = refl; holds = refl }

two_bytes_accepted : engine_ingest Signal.traces 1 (10 ∷ (20 ∷ [])) 0 ≡ (done (toy_receipt 2), 1)
unfolding engine_ingest
two_bytes_accepted = refl

ingest-Acknowledged_example :
    Acknowledged (toy_receipt 2) 13 1 toy_world (ingest Signal.traces 1 12 2 13 toy_world)
ingest-Acknowledged_example =
    ingest-Acknowledged Signal.traces 1 12 2 13 toy_world db_live
      (Body.some_bytes body_live (omega arith) (λ h. absurd (omega arith)))
      (Slot.wanted receipt_slot_live) two_bytes_accepted

abbrev catalog : List MetricMeta
catalog =
    record {
      metric = codes "http.requests";
      unit = codes "1";
      temporality = none;
      kind = codes "sum";
    }
    ∷ []

promql_context-ResolvesAll_example : ResolvesAll catalog (promql_context catalog).metrics
promql_context-ResolvesAll_example = promql_context-ResolvesAll catalog
