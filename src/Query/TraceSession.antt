-- ===== src/Query/TraceSession.antt =====
-- A caller that fills in a trace query: the `imbh_trace_query_*` calls against a plain description.
use imbh_c.Common.{map, take, ℕ, ◌≡◌, some, List, [], ◌∷◌, ◌++◌}
use imbh_c.Common.Int.{ℤ}
use imbh_c.Engine.{Engine}
use imbh_c.Types.Proto
use imbh_c.Types.Discriminant
use imbh_c.Types.Ffi.{Ptr, ImbhNumOp}
use imbh_c.Memory.{trace_view}
use imbh_c.Error.{ImbhError, World, Extern, value, success}
use imbh_c.Pointers.Live.{Live}
use imbh_c.Pointers.Arrays.{read_str_array-Strs}
use imbh_c.Query.Builders.{kv}
use imbh_c.Query.Builders.Life.{new_builder-Live}
use imbh_c.Query.Builders.Put.{edited, put_array, put, put_one, put_two}
use imbh_c.Query.Builders.Caller.{
  Contents, Readable, Readable-Strs, Arrays, Setters, session, edits, AllReadable, all_success,
  session-setters,
}
use imbh_c.Query.TraceQuery

module _ ⦃eng : Engine⦄ where
  -- A call, with the pointers that the caller passes besides the builder.
  pub data TraceCall : Type 0 where
    set_service : Ptr → TraceCall
    set_name : Ptr → TraceCall
    set_text : Ptr → TraceCall
    set_status : Ptr → TraceCall
    set_kind : Ptr → TraceCall
    set_min_duration_nanos : ℕ → TraceCall
    set_max_duration_nanos : ℕ → TraceCall
    set_range : ℤ → ℤ → TraceCall
    set_limit : ℕ → TraceCall
    add_attr_exists : Ptr → TraceCall
    add_attr_eq : Ptr → Ptr → TraceCall
    add_attr_matches : Ptr → Ptr → TraceCall
    add_attr_regex : Ptr → Ptr → TraceCall
    add_attr_num : Ptr → ImbhNumOp → eng.F64 → TraceCall
    add_attr_in : Ptr → Ptr → ℕ → TraceCall
    add_attr_not_in : Ptr → Ptr → ℕ → TraceCall

  unfoldable pub call : TraceCall → Ptr → Extern ImbhError
  call (set_service p) q = TraceQuery.set_service q p
  call (set_name p) q = TraceQuery.set_name q p
  call (set_text p) q = TraceQuery.set_text q p
  call (set_status p) q = TraceQuery.set_status q p
  call (set_kind p) q = TraceQuery.set_kind q p
  call (set_min_duration_nanos n) q = TraceQuery.set_min_duration_nanos q n
  call (set_max_duration_nanos n) q = TraceQuery.set_max_duration_nanos q n
  call (set_range a b) q = TraceQuery.set_range q a b
  call (set_limit n) q = TraceQuery.set_limit q n
  call (add_attr_exists p) q = TraceQuery.add_attr_exists q p
  call (add_attr_eq k v) q = TraceQuery.add_attr_eq q k v
  call (add_attr_matches k v) q = TraceQuery.add_attr_matches q k v
  call (add_attr_regex k v) q = TraceQuery.add_attr_regex q k v
  call (add_attr_num k op x) q = TraceQuery.add_attr_num q k op x
  call (add_attr_in k vs n) q = TraceQuery.add_attr_in q k vs n
  call (add_attr_not_in k vs n) q = TraceQuery.add_attr_not_in q k vs n

  -- What the call is to do to the query, in terms of the strings it names.
  unfoldable pub edit : Contents → TraceCall → Proto.TraceQuery eng.F64 → Proto.TraceQuery eng.F64
  edit mem (set_service p) q = record q { service = some (mem.text p) }
  edit mem (set_name p) q = record q { name = some (mem.text p) }
  edit mem (set_text p) q = record q { text = some (mem.text p) }
  edit mem (set_status p) q = record q { status = some (mem.text p) }
  edit mem (set_kind p) q = record q { kind = some (mem.text p) }
  edit mem (set_min_duration_nanos n) q = record q { min_duration_ns = some n }
  edit mem (set_max_duration_nanos n) q = record q { max_duration_ns = some n }
  edit mem (set_range a b) q = record q { range = some (record { start = a; end = b }) }
  edit mem (set_limit n) q = record q { limit = n }
  edit mem (add_attr_exists p) q = record q { attr_exists = q.attr_exists ++ (mem.text p ∷ []) }
  edit mem (add_attr_eq k v) q = record q {
    attr_eq = q.attr_eq ++ (kv (mem.text k) (mem.text v) ∷ []);
  }
  edit mem (add_attr_matches k v) q = record q {
    attr_matches = q.attr_matches ++ (kv (mem.text k) (mem.text v) ∷ []);
  }
  edit mem (add_attr_regex k v) q = record q {
    attr_regex = q.attr_regex ++ (kv (mem.text k) (mem.text v) ∷ []);
  }
  edit mem (add_attr_num k op x) q = record q {
    attr_num =
        q.attr_num ++ (record { key = mem.text k; op = Discriminant.num_op op; value = x } ∷ []);
  }
  edit mem (add_attr_in k vs n) q = record q {
    attr_in =
        q.attr_in
        ++ (record { key = mem.text k; values = map mem.text (take n (mem.items vs)) } ∷ []);
  }
  edit mem (add_attr_not_in k vs n) q = record q {
    attr_not_in =
        q.attr_not_in
        ++ (record { key = mem.text k; values = map mem.text (take n (mem.items vs)) } ∷ []);
  }

  -- The strings that a call reads, by way of an array too, and the arrays with their lengths.
  abbrev pub strings : Contents → TraceCall → List Ptr
  strings mem (set_service p) = p ∷ []
  strings mem (set_name p) = p ∷ []
  strings mem (set_text p) = p ∷ []
  strings mem (set_status p) = p ∷ []
  strings mem (set_kind p) = p ∷ []
  strings mem (add_attr_exists p) = p ∷ []
  strings mem (add_attr_eq k v) = k ∷ v ∷ []
  strings mem (add_attr_matches k v) = k ∷ v ∷ []
  strings mem (add_attr_regex k v) = k ∷ v ∷ []
  strings mem (add_attr_num k op x) = k ∷ []
  strings mem (add_attr_in k vs n) = k ∷ take n (mem.items vs)
  strings mem (add_attr_not_in k vs n) = k ∷ take n (mem.items vs)
  strings mem _ = []

  abbrev pub arrays : TraceCall → List (Ptr × ℕ)
  arrays (add_attr_in k vs n) = (vs, n) ∷ []
  arrays (add_attr_not_in k vs n) = (vs, n) ∷ []
  arrays _ = []

  pub call-edit :
      (mem : Contents) (c : TraceCall) (q : Ptr) (w : World) {a : Proto.TraceQuery eng.F64}
      → Live trace_view w.store q a
      → Readable mem w.store q (strings mem c)
      → Arrays mem w.store q (arrays c)
      → call c q w ≡ (value success, edited trace_view q (edit mem c a) w)
  unfolding call edit TraceQuery.set_service TraceQuery.set_name TraceQuery.set_text
      TraceQuery.set_status TraceQuery.set_kind TraceQuery.set_min_duration_nanos
      TraceQuery.set_max_duration_nanos TraceQuery.set_range TraceQuery.set_limit
      TraceQuery.add_attr_exists TraceQuery.add_attr_eq TraceQuery.add_attr_matches
      TraceQuery.add_attr_regex TraceQuery.add_attr_num TraceQuery.add_attr_in
      TraceQuery.add_attr_not_in
  call-edit mem (set_service p) q w l (r, _, _) _ = put_one _ _ q w l r
  call-edit mem (set_name p) q w l (r, _, _) _ = put_one _ _ q w l r
  call-edit mem (set_text p) q w l (r, _, _) _ = put_one _ _ q w l r
  call-edit mem (set_status p) q w l (r, _, _) _ = put_one _ _ q w l r
  call-edit mem (set_kind p) q w l (r, _, _) _ = put_one _ _ q w l r
  call-edit mem (set_min_duration_nanos n) q w l _ _ = put _ _ q w l
  call-edit mem (set_max_duration_nanos n) q w l _ _ = put _ _ q w l
  call-edit mem (set_range a b) q w l _ _ = put _ _ q w l
  call-edit mem (set_limit n) q w l _ _ = put _ _ q w l
  call-edit mem (add_attr_exists p) q w l (r, _, _) _ = put_one _ _ q w l r
  call-edit mem (add_attr_eq k v) q w l (r, _, (r', _, _)) _ = put_two _ _ q w l r r'
  call-edit mem (add_attr_matches k v) q w l (r, _, (r', _, _)) _ = put_two _ _ q w l r r'
  call-edit mem (add_attr_regex k v) q w l (r, _, (r', _, _)) _ = put_two _ _ q w l r r'
  call-edit mem (add_attr_num k op x) q w l (r, _, _) _ = put_one _ _ q w l r
  call-edit mem (add_attr_in k vs n) q w l (r, _, rs) (m, h, _, _) =
      put_array _ _ q w vs n l r
        (read_str_array-Strs w.store vs n m h (Readable-Strs mem w.store q _ rs)).0
  call-edit mem (add_attr_not_in k vs n) q w l (r, _, rs) (m, h, _, _) =
      put_array _ _ q w vs n l r
        (read_str_array-Strs w.store vs n m h (Readable-Strs mem w.store q _ rs)).0

  abbrev pub trace_setters : Setters trace_view TraceCall
  trace_setters = record {
    call = call;
    edit = edit;
    strings = strings;
    arrays = arrays;
    call-edit = call-edit;
  }

  -- Any sequence of the setters and adders on a new trace query succeeds call by call and leaves in
  -- it the query that the sequence describes, from the default: setters replace, adders append in
  -- order, a number test stands by its discriminant.
  -- The strings and the arrays are live and apart from the builder, the strings valid UTF-8, the
  -- arrays as long as the calls say.
  pub trace_session-edits :
      (mem : Contents) (cs : List TraceCall) (w : World) {w' : World} {q : Ptr}
      → TraceQuery.new w ≡ (value q, w')
      → AllReadable trace_setters mem w'.store q cs
      → ((session trace_setters cs q w').0 ≡ all_success cs)
        × Live trace_view
            (session trace_setters cs q w').1.store
            q
            (edits trace_setters mem cs Proto.trace_query_default)
  unfolding TraceQuery.new
  trace_session-edits mem cs w e =
      session-setters trace_setters mem cs _ _ (new_builder-Live trace_view _ w e)
