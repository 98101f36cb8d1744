-- ===== src/Query/MetricSession.antt =====
-- A caller that fills in a metric query: the `imbh_metric_query_*` calls against a plain description.
use imbh_c.Common.{ℕ, ◌≡◌, some, List, [], ◌∷◌, ◌++◌}
use imbh_c.Common.Int.{ℤ}
use imbh_c.Engine.{Engine}
use imbh_c.Types.Proto
use imbh_c.Types.Discriminant
use imbh_c.Types.Ffi.{Ptr, ImbhLabelOp, ImbhAggregation, ImbhRateMode, ImbhMetricTable}
use imbh_c.Memory.{metric_view}
use imbh_c.Error.{ImbhError, World, Extern, value, success}
use imbh_c.Pointers.Live.{Live}
use imbh_c.Query.Builders.Life.{new_builder-Live}
use imbh_c.Query.Builders.Put.{edited, put, put_one, put_two}
use imbh_c.Query.Builders.Caller.{
  Contents, Readable, Arrays, Setters, session, edits, AllReadable, all_success, session-setters,
}
use imbh_c.Query.MetricQuery

module _ ⦃eng : Engine⦄ where
  -- A call, with the pointers that the caller passes besides the builder.
  pub data MetricCall : Type 0 where
    set_metric : Ptr → MetricCall
    set_aggregation : ImbhAggregation → MetricCall
    add_group_by : Ptr → MetricCall
    add_filter : Ptr → ImbhLabelOp → Ptr → MetricCall
    set_range : ℤ → ℤ → MetricCall
    set_step_nanos : ℤ → MetricCall
    set_rate : ImbhRateMode → MetricCall

  unfoldable pub call : MetricCall → Ptr → Extern ImbhError
  call (set_metric p) q = MetricQuery.set_metric q p
  call (set_aggregation g) q = MetricQuery.set_aggregation q g
  call (add_group_by p) q = MetricQuery.add_group_by q p
  call (add_filter k op v) q = MetricQuery.add_filter q k op v
  call (set_range a b) q = MetricQuery.set_range q a b
  call (set_step_nanos n) q = MetricQuery.set_step_nanos q n
  call (set_rate r) q = MetricQuery.set_rate q r

  -- What the call is to do to the query, in terms of the strings it names.
  unfoldable pub edit : Contents → MetricCall → Proto.MetricQuery → Proto.MetricQuery
  edit mem (set_metric p) q = record q { metric = mem.text p }
  edit mem (set_aggregation g) q = record q { aggregation = some (Discriminant.aggregation g) }
  edit mem (add_group_by p) q = record q { group_by = q.group_by ++ (mem.text p ∷ []) }
  edit mem (add_filter k op v) q = record q {
    filters =
        q.filters
        ++ (record { key = mem.text k; op = Discriminant.label_op op; value = mem.text v } ∷ []);
  }
  edit mem (set_range a b) q = record q { range = some (record { start = a; end = b }) }
  edit mem (set_step_nanos n) q = record q { step_nanos = some n }
  edit mem (set_rate r) q = record q { rate = Discriminant.rate_mode r }

  -- The strings that a call reads; none reads an array.
  abbrev pub strings : Contents → MetricCall → List Ptr
  strings mem (set_metric p) = p ∷ []
  strings mem (add_group_by p) = p ∷ []
  strings mem (add_filter k op v) = k ∷ v ∷ []
  strings mem _ = []

  abbrev pub arrays : MetricCall → List (Ptr × ℕ)
  arrays _ = []

  pub call-edit :
      (mem : Contents) (c : MetricCall) (q : Ptr) (w : World) {a : Proto.MetricQuery}
      → Live metric_view w.store q a
      → Readable mem w.store q (strings mem c)
      → Arrays mem w.store q (arrays c)
      → call c q w ≡ (value success, edited metric_view q (edit mem c a) w)
  unfolding call edit MetricQuery.set_metric MetricQuery.set_aggregation MetricQuery.add_group_by
      MetricQuery.add_filter MetricQuery.set_range MetricQuery.set_step_nanos MetricQuery.set_rate
  call-edit mem (set_metric p) q w l (r, _, _) _ = put_one _ _ q w l r
  call-edit mem (set_aggregation g) q w l _ _ = put _ _ q w l
  call-edit mem (add_group_by p) q w l (r, _, _) _ = put_one _ _ q w l r
  call-edit mem (add_filter k op v) q w l (r, _, (r', _, _)) _ = put_two _ _ q w l r r'
  call-edit mem (set_range a b) q w l _ _ = put _ _ q w l
  call-edit mem (set_step_nanos n) q w l _ _ = put _ _ q w l
  call-edit mem (set_rate r) q w l _ _ = put _ _ q w l

  abbrev pub metric_setters : Setters metric_view MetricCall
  metric_setters = record {
    call = call;
    edit = edit;
    strings = strings;
    arrays = arrays;
    call-edit = call-edit;
  }

  -- Any sequence of the setters and adders on a new metric query succeeds call by call and leaves in
  -- it the query that the sequence describes, from the default for the table given: setters replace,
  -- labels and filters are appended in order, enums stand by their discriminants.
  -- The strings are live, valid UTF-8 and apart from the builder.
  pub metric_session-edits :
      (mem : Contents) (cs : List MetricCall) (t : ImbhMetricTable) (w : World) {w' : World}
      {q : Ptr}
      → MetricQuery.new t w ≡ (value q, w')
      → AllReadable metric_setters mem w'.store q cs
      → ((session metric_setters cs q w').0 ≡ all_success cs)
        × Live metric_view (session metric_setters cs q w').1.store q (
            edits metric_setters mem cs
              (record Proto.metric_query_default { table = Discriminant.metric_table t }))
  unfolding MetricQuery.new
  metric_session-edits mem cs t w e =
      session-setters metric_setters mem cs _ _ (new_builder-Live metric_view _ w e)
