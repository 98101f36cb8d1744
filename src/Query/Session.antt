-- ===== src/Query/Session.antt =====
-- A caller that fills in a log query: the `imbh_log_query_*` calls against a plain description.
use imbh_c.Common.{map, take, ℕ, ◌≡◌, some, List, [], ◌∷◌, ◌++◌}
use imbh_c.Common.Int.{ℤ}
use imbh_c.Engine.{Engine}
use imbh_c.Types.Proto
use imbh_c.Types.Discriminant
use imbh_c.Types.Ffi.{Ptr, ImbhDirection, ImbhNumOp}
use imbh_c.Memory.{log_view}
use imbh_c.Error.{ImbhError, World, Extern, value, success}
use imbh_c.Pointers.Live.{Live}
use imbh_c.Pointers.Arrays.{read_str_array-Strs}
use imbh_c.Query.Builders.{kv}
use imbh_c.Query.Builders.Put.{edited, put_array, put, put_one, put_two}
use imbh_c.Query.Builders.Caller.{
  Contents, Readable, Readable-Strs, Arrays, Setters, session, edits, AllReadable, all_success,
  session-setters,
}
use imbh_c.Query.LogQuery

module _ ⦃eng : Engine⦄ where
  -- A call, with the pointers that the caller passes besides the builder.
  pub data LogCall : Type 0 where
    set_service set_text add_attr_exists : Ptr → LogCall
    set_min_severity set_limit set_offset : ℕ → LogCall
    set_range : ℤ → ℤ → LogCall
    set_direction : ImbhDirection → LogCall
    add_attr_eq add_attr_matches add_attr_regex : Ptr → Ptr → LogCall
    add_attr_num : Ptr → ImbhNumOp → eng.F64 → LogCall
    add_attr_in add_attr_not_in : Ptr → Ptr → ℕ → LogCall

  unfoldable pub call : LogCall → Ptr → Extern ImbhError
  call (set_service p) q = LogQuery.set_service q p
  call (set_text p) q = LogQuery.set_text q p
  call (add_attr_exists p) q = LogQuery.add_attr_exists q p
  call (set_min_severity n) q = LogQuery.set_min_severity q n
  call (set_limit n) q = LogQuery.set_limit q n
  call (set_offset n) q = LogQuery.set_offset q n
  call (set_range a b) q = LogQuery.set_range q a b
  call (set_direction d) q = LogQuery.set_direction q d
  call (add_attr_eq k v) q = LogQuery.add_attr_eq q k v
  call (add_attr_matches k v) q = LogQuery.add_attr_matches q k v
  call (add_attr_regex k v) q = LogQuery.add_attr_regex q k v
  call (add_attr_num k op x) q = LogQuery.add_attr_num q k op x
  call (add_attr_in k vs n) q = LogQuery.add_attr_in q k vs n
  call (add_attr_not_in k vs n) q = LogQuery.add_attr_not_in q k vs n

  -- What the call is to do to the query, in terms of the strings it names.
  unfoldable pub edit : Contents → LogCall → Proto.LogQuery eng.F64 → Proto.LogQuery eng.F64
  edit mem (set_service p) q = record q { service = some (mem.text p) }
  edit mem (set_text p) q = record q { text = some (mem.text p) }
  edit mem (add_attr_exists p) q = record q { attr_exists = q.attr_exists ++ (mem.text p ∷ []) }
  edit mem (set_min_severity n) q = record q { min_severity = some n }
  edit mem (set_limit n) q = record q { limit = n }
  edit mem (set_offset n) q = record q { offset = n }
  edit mem (set_range a b) q = record q { range = some (record { start = a; end = b }) }
  edit mem (set_direction d) q = record q { direction = Discriminant.direction d }
  edit mem (add_attr_eq k v) q = record q {
    attr_eq = q.attr_eq ++ (kv (mem.text k) (mem.text v) ∷ []);
  }
  edit mem (add_attr_matches k v) q = record q {
    attr_matches = q.attr_matches ++ (kv (mem.text k) (mem.text v) ∷ []);
  }
  edit mem (add_attr_regex k v) q = record q {
    attr_regex = q.attr_regex ++ (kv (mem.text k) (mem.text v) ∷ []);
  }
  edit mem (add_attr_num k op x) q = record q {
    attr_num =
        q.attr_num ++ (record { key = mem.text k; op = Discriminant.num_op op; value = x } ∷ []);
  }
  edit mem (add_attr_in k vs n) q = record q {
    attr_in =
        q.attr_in
        ++ (record { key = mem.text k; values = map mem.text (take n (mem.items vs)) } ∷ []);
  }
  edit mem (add_attr_not_in k vs n) q = record q {
    attr_not_in =
        q.attr_not_in
        ++ (record { key = mem.text k; values = map mem.text (take n (mem.items vs)) } ∷ []);
  }

  -- The strings that a call reads, by way of an array too, and the arrays with their lengths.
  abbrev pub strings : Contents → LogCall → List Ptr
  strings mem (set_service p) = p ∷ []
  strings mem (set_text p) = p ∷ []
  strings mem (add_attr_exists p) = p ∷ []
  strings mem (add_attr_eq k v) = k ∷ v ∷ []
  strings mem (add_attr_matches k v) = k ∷ v ∷ []
  strings mem (add_attr_regex k v) = k ∷ v ∷ []
  strings mem (add_attr_num k op x) = k ∷ []
  strings mem (add_attr_in k vs n) = k ∷ take n (mem.items vs)
  strings mem (add_attr_not_in k vs n) = k ∷ take n (mem.items vs)
  strings mem _ = []

  abbrev pub arrays : LogCall → List (Ptr × ℕ)
  arrays (add_attr_in k vs n) = (vs, n) ∷ []
  arrays (add_attr_not_in k vs n) = (vs, n) ∷ []
  arrays _ = []

  pub call-edit :
      (mem : Contents) (c : LogCall) (q : Ptr) (w : World) {a : Proto.LogQuery eng.F64}
      → Live log_view w.store q a
      → Readable mem w.store q (strings mem c)
      → Arrays mem w.store q (arrays c)
      → call c q w ≡ (value success, edited log_view q (edit mem c a) w)
  unfolding call edit LogQuery.set_service LogQuery.set_text LogQuery.add_attr_exists
      LogQuery.set_min_severity LogQuery.set_limit LogQuery.set_offset LogQuery.set_range
      LogQuery.set_direction LogQuery.add_attr_eq LogQuery.add_attr_matches LogQuery.add_attr_regex
      LogQuery.add_attr_num LogQuery.add_attr_in LogQuery.add_attr_not_in
  call-edit mem (set_service p) q w l (r, _, _) _ = put_one _ _ q w l r
  call-edit mem (set_text p) q w l (r, _, _) _ = put_one _ _ q w l r
  call-edit mem (add_attr_exists p) q w l (r, _, _) _ = put_one _ _ q w l r
  call-edit mem (add_attr_num k op x) q w l (r, _, _) _ = put_one _ _ q w l r
  call-edit mem (set_min_severity n) q w l r _ = put _ _ q w l
  call-edit mem (set_limit n) q w l r _ = put _ _ q w l
  call-edit mem (set_offset n) q w l r _ = put _ _ q w l
  call-edit mem (set_range a b) q w l r _ = put _ _ q w l
  call-edit mem (set_direction d) q w l r _ = put _ _ q w l
  call-edit mem (add_attr_eq k v) q w l (r, _, (r', _, _)) _ = put_two _ _ q w l r r'
  call-edit mem (add_attr_matches k v) q w l (r, _, (r', _, _)) _ = put_two _ _ q w l r r'
  call-edit mem (add_attr_regex k v) q w l (r, _, (r', _, _)) _ = put_two _ _ q w l r r'
  call-edit mem (add_attr_in k vs n) q w l (r, _, rs) (m, h, _, _) =
      put_array _ _ q w vs n l r
        (read_str_array-Strs w.store vs n m h (Readable-Strs mem w.store q _ rs)).0
  call-edit mem (add_attr_not_in k vs n) q w l (r, _, rs) (m, h, _, _) =
      put_array _ _ q w vs n l r
        (read_str_array-Strs w.store vs n m h (Readable-Strs mem w.store q _ rs)).0

  abbrev pub log_setters : Setters log_view LogCall
  log_setters = record {
    call = call;
    edit = edit;
    strings = strings;
    arrays = arrays;
    call-edit = call-edit;
  }

  -- Any sequence of setters and adders succeeds call by call on a live builder and leaves in it the
  -- query that the sequence describes: setters replace, adders append in order, enums stand by
  -- their discriminants. The strings and the arrays are live and apart from the builder, the
  -- strings valid UTF-8, the arrays as long as the calls say.
  pub session-edits :
      (mem : Contents) (cs : List LogCall) (q : Ptr) (w : World) {a : Proto.LogQuery eng.F64}
      → Live log_view w.store q a
      → AllReadable log_setters mem w.store q cs
      → ((session log_setters cs q w).0 ≡ all_success cs)
        × Live log_view (session log_setters cs q w).1.store q (edits log_setters mem cs a)
  session-edits = session-setters log_setters
