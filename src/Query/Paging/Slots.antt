-- ===== src/Query/Paging/Slots.antt =====
-- The caller's pointers of a paged query (src/query.rs), before and after a page is written.
use imbh_c.Common.{ℕ, Bool, false, ◌≡◌, Option, some, arith, ◌==◌}
use imbh_c.Engine.{Engine}
use imbh_c.Types.Proto
use imbh_c.Types.Ffi.{Ptr}
use imbh_c.Memory.{
  Store, View, ImbhDb, db_view, log_view, stream_out, u64_out, bool_out, update, Cell,
}
use imbh_c.Pointers.Live.{Live-engine, Live, Live-update_self, Live-update_ne}

module _ ⦃eng : Engine⦄ where
  -- Three out-parameters at different addresses, and what they hold.
  pub record Slots (s : Store) (out next more : Ptr) (stream : Option eng.Stream)
      (offset : Option ℕ) (flag : Option Bool) : Type 0 where
    pub stream_slot : Live stream_out s out stream
    pub offset_slot : Live u64_out s next offset
    pub flag_slot : Live bool_out s more flag
    pub more_next : (more == next) ≡ false
    pub out_next : (out == next) ≡ false
    pub out_more : (out == more) ≡ false

  -- The caller's set-up: a handle, a builder, and the out-parameters.
  pub record Ready (s : Store) (db query out next more : Ptr) (h : ImbhDb)
      (q : Proto.LogQuery eng.F64) : Type 0 where
    pub handle : Live db_view s db h
    pub builder : Live log_view s query q
    pub stream : Option eng.Stream
    pub offset : Option ℕ
    pub flag : Option Bool
    pub slots : Slots s out next more stream offset flag

  -- An address that is none of the out-parameters.
  pub record Apart (p out next more : Ptr) : Type 0 where
    pub from_out : (p == out) ≡ false
    pub from_next : (p == next) ≡ false
    pub from_more : (p == more) ≡ false

  pub Slots-engine :
      {s : Store} {out next more : Ptr} {x : Option eng.Stream} {y : Option ℕ} {z : Option Bool}
      → Slots s out next more x y z
      → (e : eng.State) → Slots (record s { engine = e }) out next more x y z
  Slots-engine r e = record {
    stream_slot = Live-engine r.stream_slot e;
    offset_slot = Live-engine r.offset_slot e;
    flag_slot = Live-engine r.flag_slot e;
    more_next = r.more_next;
    out_next = r.out_next;
    out_more = r.out_more;
  }

  -- The memory after the three writes of a page.
  abbrev pub page_memory :
      (out next more : Ptr) → ℕ → Bool → eng.Stream → (Ptr → Option Cell) → Ptr → Option Cell
  page_memory out next more n b stream m =
      update
        (update (update m next (some (u64_out.wrap (some n)))) more (some (bool_out.wrap (some b))))
        out (some (stream_out.wrap (some stream)))

  apart-sym : (a b : Ptr) → (a == b) ≡ false → (b == a) ≡ false
  apart-sym a b h = ground arith

  module _ {s : Store} {out next more : Ptr} (n : ℕ) (b : Bool) (stream : eng.Stream) where
    -- An object elsewhere outlives a page.
    pub page_memory-Live :
        {A : Type 0} {v : View A} {p : Ptr} {a : A}
        → Live v s p a
        → Apart p out next more
        → Live v (record s { mem = page_memory out next more n b stream s.mem }) p a
    page_memory-Live l d =
        Live-update_ne stream_out _ _
          (Live-update_ne bool_out _ _ (Live-update_ne u64_out _ _ l d.from_next) d.from_more)
          d.from_out

    -- The out-parameters hold what the page wrote.
    pub page_memory-Slots :
        {x : Option eng.Stream} {y : Option ℕ} {z : Option Bool}
        → Slots s out next more x y z
        → Slots
            (record s { mem = page_memory out next more n b stream s.mem })
            out
            next
            more
            (some stream)
            (some n)
            (some b)
    page_memory-Slots r = record {
      stream_slot =
          Live-update_self
            (Live-update_ne bool_out _ _ (Live-update_ne u64_out _ _ r.stream_slot r.out_next)
              r.out_more)
            _;
      offset_slot =
          Live-update_ne stream_out _ _
            (Live-update_ne bool_out _ _ (Live-update_self r.offset_slot _)
              (apart-sym _ _ r.more_next))
            (apart-sym _ _ r.out_next);
      flag_slot =
          Live-update_ne stream_out _ _
            (Live-update_self (Live-update_ne u64_out _ _ r.flag_slot r.more_next) _)
            (apart-sym _ _ r.out_more);
      more_next = r.more_next;
      out_next = r.out_next;
      out_more = r.out_more;
    }

    -- Three out-parameters away from the handle and the builder: a page leaves the caller ready.
    pub page_memory-Ready :
        {db query : Ptr} {h : ImbhDb} {q : Proto.LogQuery eng.F64}
        → Ready s db query out next more h q
        → Apart db out next more
        → Apart query out next more
        → (e : eng.State)
        → Ready
            (record s { mem = page_memory out next more n b stream s.mem; engine = e })
            db
            query
            out
            next
            more
            h
            q
    page_memory-Ready r d u e = record {
      handle = Live-engine (page_memory-Live r.handle d) e;
      builder = Live-engine (page_memory-Live r.builder u) e;
      stream = some stream;
      offset = some n;
      flag = some b;
      slots = Slots-engine (page_memory-Slots r.slots) e;
    }
