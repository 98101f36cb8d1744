-- ===== src/Examples.antt =====
-- The theorems at concrete inputs, on a small engine: calls, errors, paging and builders.
pub mod Data
pub mod Requests
pub mod Sessions
use imbh_c.Common.{
  ◌++◌, ℕ, suc, Text, true, false, none, some, List, [], ◌∷◌, ◌≡◌, refl, ◌≢◌, ◌↔◌, ◌⊎◌, codes,
  length, take, drop, map, ◌%◌, ◌≤◌, arith, u64_mod,
}
use imbh_c.Common.Int.{ℤ}
use imbh_c.Common.Utf8.{is_utf8, has_nul}
use imbh_c.Toy.{pointers_live, toy, toy_lgtm, toy_world, toy_rows, toy_stats, two_per_page}
use imbh_c.Types.Imbh.{TableStats, MetricMeta}
use imbh_c.Types.Ffi.{Ptr, null, ImbhBytes, ImbhTable, ImbhWalMode, ImbhCompression}
use imbh_c.Memory.{
  Outcome, err, panic, undefined, Call, throw, CallError, log_view, db_view, db_out, str_view, ok,
  ImbhDb, peek, block_on, Store, Cell, update,
}
use imbh_c.Memory
use imbh_c.Pointers.{
  handle, invalid, make_bytes, bytes, imbh_bytes_free, read_str_array, read_promote_keys,
}
use imbh_c.Pointers.Live.{Live}
use imbh_c.Pointers.Arrays.{Str, Strs, read_str_array-Strs}
use imbh_c.Pointers.Bytes.{make_bytes-roundtrip}
use imbh_c.Error
use imbh_c.Error.{ImbhError, value, success, guard, classify, World, settle, stored_message}
use imbh_c.Error.Laws.{guard-Reports, guard_catches, guard_frame, classify_order, Reports}
use imbh_c.Error.Message.{stored_message-IsCString}
use imbh_c.Lifecycle.{imbh_db_free, imbh_db_open_memory}
use imbh_c.Lifecycle.Handles.{imbh_db_free-Live, imbh_db_open_memory-Live, opened}
use imbh_c.Ops.{stats_of, find_table}
use imbh_c.Ops.Totals.{stats_of-totals, sum}
use imbh_c.Tables.{into_table}
use imbh_c.Lifecycle.Failures.{imbh_db_open_memory-failed}
use imbh_c.Query.Builders.{new_builder, free_builder}
use imbh_c.Types.Imbh.{SegmentRef, TraceSummary}
use imbh_c.Types.Arrow.{string_array, int64_array, boolean_array}
use imbh_c.Discovery.Batches.{
  strings, segments_fields, segments_columns, trace_summary_fields, trace_summary_columns,
}
use imbh_c.Discovery.Schema.{Fits, segments_columns-Fits, trace_summary_columns-Fits}
use imbh_c.Common.Int.{as_i64}
use imbh_c.Lgtm.Translation.{resolution-query_name, has_dot}
use imbh_c.Lgtm.Interface.{MetricResolution}
use imbh_c.Lgtm.Context.{resolution, promql_context}
use imbh_c.Lgtm.Queries.{eval_range, max_entries_of}
use imbh_c.Query.Paging.Page.{PagesBy}
use imbh_c.Query.Paging.Slots.{Ready, Slots}
use imbh_c.Query.Paging.Walk.{walk, walk-all}
use imbh_c.Query.Builders.Caller.{session, edits, all_success, Contents, Readable}
use imbh_c.Query.Session.{
  LogCall, log_setters, session-edits, set_service, set_limit, add_attr_eq, add_attr_in,
}
use imbh_c.Api.{run, flush}
use imbh_c.Api.NullHandle.{run-null}
use imbh_c.Api.Transaction.{run-undone}
use imbh_c.Toy.{toy_handle, toy_store, db_live, builder_live, api-Str}

run-null_example :
    run flush null toy_world
    ≡ (value ImbhError.invalid_arg, Error.set_last_error (codes "null imbh_db handle") toy_world)
run-null_example = run-null flush toy_world

flush_fails : (run flush 1 toy_world).0 ≡ value ImbhError.query
unfolding run imbh_c.Ops.imbh_db_flush guard settle classify Error.of_category handle Memory.as_ref
    Memory.deref peek Memory.◌>>=◌ block_on
flush_fails = refl

run-undone_example : (run flush 1 toy_world).1.store.mem ≡ toy_world.store.mem
run-undone_example = run-undone flush 1 toy_world flush_fails (λ h. cc)

abbrev first_batch : List (List ℕ) → List ℕ
first_batch [] = []
first_batch (b ∷ _) = b

toy_pages : PagesBy toy_handle two_per_page toy_rows first_batch
unfolding imbh_c.Arrow.export_batches_infer
toy_pages = record {
  built = λ o. (o, 2);
  batches = λ o _. take 2 (drop o toy_rows) ∷ [];
  stats = λ o _. imbh_c.Toy.page_stats (length (take 2 (drop o toy_rows)));
  then_state = λ _ st. suc st;
  builds = λ o. refl;
  answers = λ o st. refl;
  decodes = λ o st. refl;
  counts = λ o st. refl;
}

toy-Slots : Slots toy_store 3 4 5 none none none
unfolding peek
toy-Slots = record {
  stream_slot = record { not_null = refl; holds = refl };
  offset_slot = record { not_null = refl; holds = refl };
  flag_slot = record { not_null = refl; holds = refl };
  more_next = refl;
  out_next = refl;
  out_more = refl;
}

toy-Ready : Ready toy_store 1 2 3 4 5 toy_handle two_per_page
toy-Ready = record {
  handle = db_live;
  builder = builder_live;
  stream = none;
  offset = none;
  flag = none;
  slots = toy-Slots;
}

walk-all_example : walk first_batch 6 1 2 3 4 5 0 toy_world ≡ some toy_rows
walk-all_example =
    walk-all toy_pages 1 2 3 4 5 6 toy_world (omega arith) (omega arith) (omega arith)
      (record { from_out = refl; from_next = refl; from_more = refl })
      (record { from_out = refl; from_next = refl; from_more = refl }) toy-Ready

abbrev contents : Contents
contents = record { text = λ _. codes "api"; items = λ _. 6 ∷ (6 ∷ []) }

abbrev calls : List LogCall
calls = set_limit 7 ∷ (set_service 6 ∷ (add_attr_eq 6 6 ∷ (add_attr_in 6 9 2 ∷ [])))

session-edits_example :
    ((session log_setters calls 2 toy_world).0 ≡ all_success calls)
    × Live log_view
        (session log_setters calls 2 toy_world).1.store
        2
        (edits log_setters contents calls two_per_page)
session-edits_example =
    let one : Readable contents toy_store 2 (6 ∷ []) = (api-Str, refl, tt) in
    let two : Readable contents toy_store 2 (6 ∷ (6 ∷ [])) = (api-Str, refl, one) in
    session-edits contents calls 2 toy_world builder_live (
      tt,
      tt,
      (one, tt, (two, tt, ((api-Str, refl, two), (pointers_live, omega arith, refl, tt), tt))),
    )

abbrev bad : Call (Unit {0})
bad = throw (invalid "bad")

bad_code : (guard bad toy_world).0 ≡ value ImbhError.invalid_arg
unfolding guard settle throw
bad_code = refl

bad_is_defined : (bad toy_world.store).0 ≢ undefined
unfolding throw
bad_is_defined h = cc

guard-Reports_example :
    Reports ImbhError.invalid_arg ((guard bad toy_world).1.last_error toy_world.thread)
guard-Reports_example = guard-Reports bad toy_world bad_code

guard_catches_example :
    ((c : ImbhError) × ((guard bad toy_world).0 ≡ value c))
    × (((guard bad toy_world).0 ≡ value success) ↔ ((bad toy_world.store).0 ≡ ok tt))
guard_catches_example = guard_catches bad toy_world bad_is_defined

guard_frame_example :
    ((guard bad toy_world).1.last_error 2 ≡ toy_world.last_error 2)
    × ((guard bad toy_world).1.store ≡ (bad toy_world.store).1)
    × ((guard bad toy_world).1.thread ≡ toy_world.thread)
guard_frame_example = guard_frame bad toy_world 2 (λ h. absurd (omega arith))

classify_order_example :
    (classify 2 ≢ success)
    × ((classify 2 ≡ ImbhError.backpressure) ↔ (toy.is_backpressure 2 ≡ true))
    × ((classify 2 ≡ ImbhError.not_found)
        ↔ ((toy.is_backpressure 2 ≡ false) × (toy.is_not_found 2 ≡ true)))
    × ((toy.is_backpressure 2 ≡ true)
        ⊎ ((toy.is_not_found 2 ≡ true) ⊎ (classify 2 ≡ Error.of_category (toy.category 2))))
classify_order_example = classify_order 2

abbrev with_nul : Text
with_nul = b'a' ∷ (0 ∷ (b'b' ∷ []))

with_nul-is_utf8 : is_utf8 with_nul ≡ true
unfolding is_utf8
with_nul-is_utf8 = refl

stored_message-IsCString_example :
    (is_utf8 (stored_message with_nul) ≡ true)
    × (has_nul (stored_message with_nul) ≡ false)
    × ((stored_message with_nul ≡ with_nul) ↔ (has_nul with_nul ≡ false))
stored_message-IsCString_example = stored_message-IsCString with_nul with_nul-is_utf8
