-- ===== src/Discovery/Lookups.antt =====
-- The catalog lookups of src/discovery.rs.
use mathlib.Core.Option
use imbh_c.Common.{Text, true, false, Option, some, List, [], ◌∷◌, ◌++◌, map, codes, ◌==◌}
use imbh_c.Common.Int.{ℤ}
use imbh_c.Engine.{Engine}
use imbh_c.Types.Imbh.{MetricMeta, Exemplar}
use imbh_c.Types.Ffi.{Ptr}
use imbh_c.Types.Arrow.{
  Field, Column, utf8, int64, float64, string_array, int64_array, float64_array,
}
use imbh_c.Memory.{CallError, Action, ◌>>=◌, ◌>>◌, reject_if, block_on, store, stream_out}
use imbh_c.Error.{Extern, ImbhError, guard}
use imbh_c.Pointers.{invalid, handle, cstr}
use imbh_c.Arrow.{export_batches_infer}
use imbh_c.Discovery.Batches.{field, strings, record_batch, utf8_batch}

module _ ⦃eng : Engine⦄ where
  unfoldable pub write_batch : {E : Type 0} → Ptr → eng.RecordBatch → Action E (Unit {0})
  unfolding store export_batches_infer
  write_batch out batch = store stream_out out (some (export_batches_infer (batch ∷ [])))

  unfoldable pub imbh_db_attr_names : Ptr → Ptr → Extern ImbhError
  imbh_db_attr_names db out = guard do
    h ← handle db
    reject_if (out == 0) (invalid "null out stream pointer")
    names ← block_on CallError.imbh (eng.attrs_names h.db)
    batch ← utf8_batch (codes "name") names
    write_batch out batch

  unfoldable pub imbh_db_attr_values : Ptr → Ptr → Ptr → Extern ImbhError
  imbh_db_attr_values db key out = guard do
    h ← handle db
    key' ← cstr key
    reject_if (out == 0) (invalid "null out stream pointer")
    values ← block_on CallError.imbh (eng.attrs_values h.db key')
    batch ← utf8_batch (codes "value") values
    write_batch out batch

  -- The vectors of `imbh_db_metric_catalog`.
  pub record CatalogColumns : Type 0 where
    pub metrics : List Text
    pub units : List Text
    pub temporalities : List (Option Text)
    pub kinds : List Text

  unfoldable pub push_metas : CatalogColumns → List MetricMeta → CatalogColumns
  push_metas c [] = c
  push_metas c (m ∷ catalog) =
      push_metas
        (record {
          metrics = c.metrics ++ (m.metric ∷ []);
          units = c.units ++ (m.unit ∷ []);
          temporalities = c.temporalities ++ (m.temporality ∷ []);
          kinds = c.kinds ++ (m.kind ∷ []);
        })
        catalog

  abbrev pub catalog_fields : List Field
  catalog_fields =
      field "metric" utf8 false
      ∷ field "unit" utf8 false
      ∷ field "temporality" utf8 true
      ∷ field "kind" utf8 false
      ∷ []

  unfoldable pub catalog_columns : List MetricMeta → List (Column eng.F64)
  unfolding push_metas
  catalog_columns catalog =
      let c =
        push_metas (record { metrics = []; units = []; temporalities = []; kinds = [] }) catalog in
      strings c.metrics ∷ strings c.units ∷ string_array c.temporalities ∷ strings c.kinds ∷ []

  unfoldable pub imbh_db_metric_catalog : Ptr → Ptr → Extern ImbhError
  imbh_db_metric_catalog db out = guard do
    h ← handle db
    reject_if (out == 0) (invalid "null out stream pointer")
    catalog ← block_on CallError.imbh (eng.metrics_catalog h.db)
    batch ← record_batch catalog_fields (catalog_columns catalog)
    write_batch out batch

  unfoldable pub imbh_db_metric_series : Ptr → Ptr → Ptr → Extern ImbhError
  imbh_db_metric_series db metric out = guard do
    h ← handle db
    metric' ← cstr metric
    reject_if (out == 0) (invalid "null out stream pointer")
    series ← block_on CallError.imbh (eng.metrics_series h.db metric')
    let labels = map eng.canonical_json_object series
    batch ← utf8_batch (codes "labels") labels
    write_batch out batch

  -- The vectors of `imbh_db_metric_exemplars`.
  pub record ExemplarColumns : Type 0 where
    pub times : List ℤ
    pub values : List eng.F64
    pub trace_ids : List (Option Text)
    pub span_ids : List (Option Text)
    pub attributes : List Text

  unfoldable pub push_exemplars :
      ExemplarColumns → List (Exemplar eng.F64 eng.TraceId eng.SpanId) → ExemplarColumns
  push_exemplars c [] = c
  push_exemplars c (ex ∷ exemplars) =
      push_exemplars
        (record {
          times = c.times ++ (ex.time ∷ []);
          values = c.values ++ (ex.value ∷ []);
          trace_ids = c.trace_ids ++ (Option.map eng.trace_to_hex ex.trace_id ∷ []);
          span_ids = c.span_ids ++ (Option.map eng.span_to_hex ex.span_id ∷ []);
          attributes = c.attributes ++ (ex.attributes ∷ []);
        })
        exemplars

  abbrev pub exemplar_fields : List Field
  exemplar_fields =
      field "time" int64 false
      ∷ field "value" float64 false
      ∷ field "trace_id" utf8 true
      ∷ field "span_id" utf8 true
      ∷ field "attributes" utf8 false
      ∷ []

  unfoldable pub exemplar_columns :
      List (Exemplar eng.F64 eng.TraceId eng.SpanId) → List (Column eng.F64)
  unfolding push_exemplars
  exemplar_columns exemplars =
      let c =
        push_exemplars
          (record { times = []; values = []; trace_ids = []; span_ids = []; attributes = [] })
          exemplars in
      int64_array c.times
      ∷ float64_array c.values
      ∷ string_array c.trace_ids
      ∷ string_array c.span_ids
      ∷ strings c.attributes
      ∷ []

  unfoldable pub imbh_db_metric_exemplars : Ptr → Ptr → Ptr → Extern ImbhError
  imbh_db_metric_exemplars db metric out = guard do
    h ← handle db
    metric' ← cstr metric
    reject_if (out == 0) (invalid "null out stream pointer")
    exemplars ← block_on CallError.imbh (eng.metrics_exemplars h.db metric')
    batch ← record_batch exemplar_fields (exemplar_columns exemplars)
    write_batch out batch
