-- ===== src/Query/PointsSession.antt =====
-- A caller that fills in a metric-points query: the
-- `imbh_metric_points_query_*` calls against a plain description.
use imbh_c.Common.{none, ℕ, ◌≡◌, some, List, [], ◌∷◌, ◌++◌}
use imbh_c.Common.Int.{ℤ}
use imbh_c.Engine.{Engine}
use imbh_c.Types.Ffi.{Ptr, ImbhMetricPointKind, ImbhMetricPointsQuery}
use imbh_c.Memory.{points_view}
use imbh_c.Error.{ImbhError, World, Extern, value, success}
use imbh_c.Pointers.Live.{Live}
use imbh_c.Query.Builders.Life.{new_builder-Live}
use imbh_c.Query.Builders.Put.{edited, put, put_one, put_two}
use imbh_c.Query.Builders.Caller.{
  Contents, Readable, Arrays, Setters, session, edits, AllReadable, all_success, session-setters,
}
use imbh_c.Query.MetricPointsQuery

module _ ⦃eng : Engine⦄ where
  -- A call, with the pointers that the caller passes besides the builder.
  pub data PointsCall : Type 0 where
    set_metric : Ptr → PointsCall
    add_filter : Ptr → Ptr → PointsCall
    set_range : ℤ → ℤ → PointsCall
    set_limit : ℕ → PointsCall

  unfoldable pub call : PointsCall → Ptr → Extern ImbhError
  call (set_metric p) q = MetricPointsQuery.set_metric q p
  call (add_filter k v) q = MetricPointsQuery.add_filter q k v
  call (set_range a b) q = MetricPointsQuery.set_range q a b
  call (set_limit n) q = MetricPointsQuery.set_limit q n

  -- What the call is to do to the query, in terms of the strings it names.
  unfoldable pub edit : Contents → PointsCall → ImbhMetricPointsQuery → ImbhMetricPointsQuery
  edit mem (set_metric p) q = record q { metric = mem.text p }
  edit mem (add_filter k v) q = record q { filters = q.filters ++ ((mem.text k, mem.text v) ∷ []) }
  edit mem (set_range a b) q = record q { range = some (a, b) }
  edit mem (set_limit n) q = record q { limit = n }

  -- The strings that a call reads; none reads an array.
  abbrev pub strings : Contents → PointsCall → List Ptr
  strings mem (set_metric p) = p ∷ []
  strings mem (add_filter k v) = k ∷ v ∷ []
  strings mem _ = []

  abbrev pub arrays : PointsCall → List (Ptr × ℕ)
  arrays _ = []

  pub call-edit :
      (mem : Contents) (c : PointsCall) (q : Ptr) (w : World) {a : ImbhMetricPointsQuery}
      → Live points_view w.store q a
      → Readable mem w.store q (strings mem c)
      → Arrays mem w.store q (arrays c)
      → call c q w ≡ (value success, edited points_view q (edit mem c a) w)
  unfolding call edit MetricPointsQuery.set_metric MetricPointsQuery.add_filter
      MetricPointsQuery.set_range MetricPointsQuery.set_limit
  call-edit mem (set_metric p) q w l (r, _, _) _ = put_one _ _ q w l r
  call-edit mem (add_filter k v) q w l (r, _, (r', _, _)) _ = put_two _ _ q w l r r'
  call-edit mem (set_range a b) q w l _ _ = put _ _ q w l
  call-edit mem (set_limit n) q w l _ _ = put _ _ q w l

  abbrev pub points_setters : Setters points_view PointsCall
  points_setters = record {
    call = call;
    edit = edit;
    strings = strings;
    arrays = arrays;
    call-edit = call-edit;
  }

  -- Any sequence of the setters and adders on a new metric-points query succeeds call by call and
  -- leaves in it the query that the sequence describes, from an empty one of the kind given: setters
  -- replace, filters are appended in order.
  -- The strings are live, valid UTF-8 and apart from the builder.
  pub points_session-edits :
      (mem : Contents) (cs : List PointsCall) (k : ImbhMetricPointKind) (w : World) {w' : World}
      {q : Ptr}
      → MetricPointsQuery.new k w ≡ (value q, w')
      → AllReadable points_setters mem w'.store q cs
      → ((session points_setters cs q w').0 ≡ all_success cs)
        × Live points_view (session points_setters cs q w').1.store q (
            edits points_setters mem cs
              (record { kind = k; metric = []; filters = []; range = none; limit = 0 }))
  unfolding MetricPointsQuery.new
  points_session-edits mem cs k w e =
      session-setters points_setters mem cs _ _ (new_builder-Live points_view _ w e)
