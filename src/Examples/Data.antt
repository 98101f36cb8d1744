-- ===== src/Examples/Data.antt =====
-- The theorems at concrete inputs: handles, options, buffers, batches and translation.
use imbh_c.Common.{
  ◌++◌, Text, false, none, some, List, [], ◌∷◌, ◌≡◌, refl, ◌↔◌, codes, length, map, arith,
}
use imbh_c.Common.Int.{ℤ}
use imbh_c.Toy.{pointers_live, toy, toy_lgtm, toy_world}
use imbh_c.Types.Imbh.{MetricMeta}
use imbh_c.Types.Ffi.{Ptr, ImbhBytes}
use imbh_c.Memory.{db_view, db_out, ok, peek, Store, update}
use imbh_c.Pointers.{make_bytes, bytes, imbh_bytes_free, read_str_array, read_promote_keys}
use imbh_c.Pointers.Live.{Live}
use imbh_c.Pointers.Arrays.{Strs, read_str_array-Strs}
use imbh_c.Pointers.Bytes.{make_bytes-roundtrip}
use imbh_c.Error
use imbh_c.Error.{ImbhError, value, success, guard, classify, World, settle, stored_message}
use imbh_c.Lifecycle.{imbh_db_free, imbh_db_open_memory}
use imbh_c.Lifecycle.Handles.{imbh_db_free-Live, imbh_db_open_memory-Live, opened}
use imbh_c.Lifecycle.Failures.{imbh_db_open_memory-failed}
use imbh_c.Types.Imbh.{SegmentRef, TraceSummary}
use imbh_c.Types.Arrow.{string_array, int64_array, boolean_array}
use imbh_c.Discovery.Batches.{
  strings, segments_fields, segments_columns, trace_summary_fields, trace_summary_columns,
}
use imbh_c.Discovery.Schema.{Fits, segments_columns-Fits, trace_summary_columns-Fits}
use imbh_c.Common.Int.{as_i64}
use imbh_c.Lgtm.Translation.{resolution-query_name, has_dot}
use imbh_c.Lgtm.Context.{resolution}
use imbh_c.Toy.{toy_handle, toy_store, db_live, api-Str}

db_slot_live : Live db_out toy_store 8 none
unfolding peek
db_slot_live = record { not_null = refl; holds = refl }

imbh_db_open_memory-Live_example :
    (imbh_db_open_memory 8 toy_world ≡ (
      value success,
      Error.clear_last_error (record toy_world { store = opened 8 toy_handle 2 toy_store }),
    ))
    × Live db_view (opened 8 toy_handle 2 toy_store) 101 toy_handle
    × Live db_out (opened 8 toy_handle 2 toy_store) 8 (some 101)
imbh_db_open_memory-Live_example =
    imbh_db_open_memory-Live 8 toy_world db_slot_live (omega arith) refl refl

imbh_db_free-Live_example : imbh_db_free 1 toy_world ≡ (
  value tt,
  record toy_world { store = record toy_store { mem = update toy_store.mem 1 none; engine = 2 } },
)
imbh_db_free-Live_example = imbh_db_free-Live 1 toy_world db_live refl (λ p h. cc)

make_bytes-roundtrip_example :
    (buf : ImbhBytes) × (s : Store) × (make_bytes {E = ⊥} (1 ∷ (2 ∷ [])) toy_store ≡ (ok buf, s))
    × (bytes buf.bytes buf.len s ≡ (ok (1 ∷ (2 ∷ [])), s))
    × ((imbh_bytes_free buf (record toy_world { store = s })).0 ≡ value tt)
    × ((p : Ptr)
        → (imbh_bytes_free buf (record toy_world { store = s })).1.store.mem p ≡ toy_store.mem p)
make_bytes-roundtrip_example = make_bytes-roundtrip (1 ∷ (2 ∷ [])) toy_world refl

read_str_array-Strs_example :
    (read_str_array 9 2 toy_store ≡ (ok (codes "api" ∷ (codes "api" ∷ [])), toy_store))
    × (read_promote_keys 9 2 toy_store ≡ (ok (codes "api" ∷ (codes "api" ∷ [])), toy_store))
read_str_array-Strs_example =
    read_str_array-Strs toy_store 9 2 pointers_live (omega arith)
      (Strs.more api-Str (Strs.more api-Str Strs.none))

abbrev requests : MetricMeta
requests = record {
  metric = codes "http.requests";
  unit = codes "1";
  temporality = none;
  kind = codes "sum";
}

resolution-query_name_example :
    (has_dot (resolution requests).query_name ≡ false)
    × (length (resolution requests).query_name ≡ length requests.metric)
    × (((resolution requests).query_name ≡ requests.metric) ↔ (has_dot requests.metric ≡ false))
resolution-query_name_example = resolution-query_name requests

abbrev late_world : World
late_world = record toy_world { store = record toy_store { engine = 60 } }

late_slot_live : Live db_out late_world.store 8 none
unfolding peek
late_slot_live = record { not_null = refl; holds = refl }

imbh_db_open_memory-failed_example : imbh_db_open_memory 8 late_world ≡ (
  value ImbhError.invalid_arg,
  Error.set_last_error
      (codes "failed to build runtime: " ++ codes "no")
      (record late_world { store = record late_world.store { engine = 62 } }),
)
imbh_db_open_memory-failed_example =
    imbh_db_open_memory-failed 8 late_world late_slot_live refl refl

abbrev segment : SegmentRef
segment = record {
  relative_path = codes "logs/1";
  min_time_unix_nano = ℤ.pos 4;
  max_time_unix_nano = ℤ.pos 9;
  rows = 5;
}

segments_columns-Fits_example :
    (segments_columns (segment ∷ [])
      ≡ strings (map (λ (s : SegmentRef). s.relative_path) (segment ∷ []))
        ∷ int64_array (map (λ (s : SegmentRef). s.min_time_unix_nano) (segment ∷ []))
        ∷ int64_array (map (λ (s : SegmentRef). s.max_time_unix_nano) (segment ∷ []))
        ∷ int64_array (map (λ (s : SegmentRef). as_i64 s.rows) (segment ∷ []))
        ∷ [])
    × Fits 1 segments_fields (segments_columns (segment ∷ []))
segments_columns-Fits_example = segments_columns-Fits (segment ∷ [])

abbrev summaries : List (TraceSummary Text)
summaries =
    record {
      trace_id = codes "ab";
      root_service = none;
      root_name = some (codes "get");
      start_time = ℤ.pos 4;
      duration_ns = 9;
      span_count = 2;
      error = false;
    }
    ∷ []

trace_summary_columns-Fits_example :
    (trace_summary_columns summaries
      ≡ strings (map (λ (s : TraceSummary Text). toy.trace_to_hex s.trace_id) summaries)
        ∷ string_array (map (λ (s : TraceSummary Text). s.root_service) summaries)
        ∷ string_array (map (λ (s : TraceSummary Text). s.root_name) summaries)
        ∷ int64_array (map (λ (s : TraceSummary Text). s.start_time) summaries)
        ∷ int64_array (map (λ (s : TraceSummary Text). as_i64 s.duration_ns) summaries)
        ∷ int64_array (map (λ (s : TraceSummary Text). as_i64 s.span_count) summaries)
        ∷ boolean_array (map (λ (s : TraceSummary Text). s.error) summaries)
        ∷ [])
    × Fits (length summaries) trace_summary_fields (trace_summary_columns summaries)
trace_summary_columns-Fits_example = trace_summary_columns-Fits summaries
