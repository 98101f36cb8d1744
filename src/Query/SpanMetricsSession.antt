-- ===== src/Query/SpanMetricsSession.antt =====
-- A caller that fills in a span-metrics query: the
-- `imbh_span_metrics_query_*` calls against a plain description.
use imbh_c.Common.{ℕ, ◌≡◌, some, List, [], ◌∷◌, ◌++◌}
use imbh_c.Common.Int.{ℤ}
use imbh_c.Engine.{Engine}
use imbh_c.Types.Proto
use imbh_c.Types.Ffi.{Ptr}
use imbh_c.Memory.{span_metrics_view}
use imbh_c.Error.{ImbhError, World, Extern, value, success}
use imbh_c.Pointers.Live.{Live}
use imbh_c.Query.Builders.{kv}
use imbh_c.Query.Builders.Life.{new_builder-Live}
use imbh_c.Query.Builders.Put.{edited, put, put_one, put_two}
use imbh_c.Query.Builders.Caller.{
  Contents, Readable, Arrays, Setters, session, edits, AllReadable, all_success, session-setters,
}
use imbh_c.Query.SpanMetricsQuery

module _ ⦃eng : Engine⦄ where
  -- A call, with the pointers that the caller passes besides the builder.
  pub data SpanMetricsCall : Type 0 where
    set_service : Ptr → SpanMetricsCall
    set_name : Ptr → SpanMetricsCall
    set_kind : Ptr → SpanMetricsCall
    set_status : Ptr → SpanMetricsCall
    add_attr_eq : Ptr → Ptr → SpanMetricsCall
    add_group_by : Ptr → SpanMetricsCall
    set_range : ℤ → ℤ → SpanMetricsCall
    set_step_nanos : ℤ → SpanMetricsCall

  unfoldable pub call : SpanMetricsCall → Ptr → Extern ImbhError
  call (set_service p) q = SpanMetricsQuery.set_service q p
  call (set_name p) q = SpanMetricsQuery.set_name q p
  call (set_kind p) q = SpanMetricsQuery.set_kind q p
  call (set_status p) q = SpanMetricsQuery.set_status q p
  call (add_attr_eq k v) q = SpanMetricsQuery.add_attr_eq q k v
  call (add_group_by p) q = SpanMetricsQuery.add_group_by q p
  call (set_range a b) q = SpanMetricsQuery.set_range q a b
  call (set_step_nanos n) q = SpanMetricsQuery.set_step_nanos q n

  -- What the call is to do to the query, in terms of the strings it names.
  unfoldable pub edit : Contents → SpanMetricsCall → Proto.SpanMetricsQuery → Proto.SpanMetricsQuery
  edit mem (set_service p) q = record q { service = some (mem.text p) }
  edit mem (set_name p) q = record q { name = some (mem.text p) }
  edit mem (set_kind p) q = record q { kind = some (mem.text p) }
  edit mem (set_status p) q = record q { status = some (mem.text p) }
  edit mem (add_attr_eq k v) q = record q {
    attr_eq = q.attr_eq ++ (kv (mem.text k) (mem.text v) ∷ []);
  }
  edit mem (add_group_by p) q = record q { group_by = q.group_by ++ (mem.text p ∷ []) }
  edit mem (set_range a b) q = record q { range = some (record { start = a; end = b }) }
  edit mem (set_step_nanos n) q = record q { step_nanos = some n }

  -- The strings that a call reads; none reads an array.
  abbrev pub strings : Contents → SpanMetricsCall → List Ptr
  strings mem (set_service p) = p ∷ []
  strings mem (set_name p) = p ∷ []
  strings mem (set_kind p) = p ∷ []
  strings mem (set_status p) = p ∷ []
  strings mem (add_attr_eq k v) = k ∷ v ∷ []
  strings mem (add_group_by p) = p ∷ []
  strings mem _ = []

  abbrev pub arrays : SpanMetricsCall → List (Ptr × ℕ)
  arrays _ = []

  pub call-edit :
      (mem : Contents) (c : SpanMetricsCall) (q : Ptr) (w : World) {a : Proto.SpanMetricsQuery}
      → Live span_metrics_view w.store q a
      → Readable mem w.store q (strings mem c)
      → Arrays mem w.store q (arrays c)
      → call c q w ≡ (value success, edited span_metrics_view q (edit mem c a) w)
  unfolding call edit SpanMetricsQuery.set_service SpanMetricsQuery.set_name
      SpanMetricsQuery.set_kind SpanMetricsQuery.set_status SpanMetricsQuery.add_attr_eq
      SpanMetricsQuery.add_group_by SpanMetricsQuery.set_range SpanMetricsQuery.set_step_nanos
  call-edit mem (set_service p) q w l (r, _, _) _ = put_one _ _ q w l r
  call-edit mem (set_name p) q w l (r, _, _) _ = put_one _ _ q w l r
  call-edit mem (set_kind p) q w l (r, _, _) _ = put_one _ _ q w l r
  call-edit mem (set_status p) q w l (r, _, _) _ = put_one _ _ q w l r
  call-edit mem (add_attr_eq k v) q w l (r, _, (r', _, _)) _ = put_two _ _ q w l r r'
  call-edit mem (add_group_by p) q w l (r, _, _) _ = put_one _ _ q w l r
  call-edit mem (set_range a b) q w l _ _ = put _ _ q w l
  call-edit mem (set_step_nanos n) q w l _ _ = put _ _ q w l

  abbrev pub span_metrics_setters : Setters span_metrics_view SpanMetricsCall
  span_metrics_setters = record {
    call = call;
    edit = edit;
    strings = strings;
    arrays = arrays;
    call-edit = call-edit;
  }

  -- Any sequence of the setters and adders on a new span-metrics query succeeds call by call and
  -- leaves in it the query that the sequence describes, from the default: setters replace, attribute
  -- tests and labels are appended in order.
  -- The strings are live, valid UTF-8 and apart from the builder.
  pub span_metrics_session-edits :
      (mem : Contents) (cs : List SpanMetricsCall) (w : World) {w' : World} {q : Ptr}
      → SpanMetricsQuery.new w ≡ (value q, w')
      → AllReadable span_metrics_setters mem w'.store q cs
      → ((session span_metrics_setters cs q w').0 ≡ all_success cs)
        × Live span_metrics_view
            (session span_metrics_setters cs q w').1.store
            q
            (edits span_metrics_setters mem cs Proto.span_metrics_query_default)
  unfolding SpanMetricsQuery.new
  span_metrics_session-edits mem cs w e =
      session-setters span_metrics_setters mem cs _ _ (new_builder-Live span_metrics_view _ w e)
