-- ===== src/Ingest/Receipts.antt =====
-- What the three ingest calls of src/lib.rs hand to the engine and report of its receipt.
use imbh_c.Common.{
  ℕ, Option, none, some, List, [], length, take, ◌≤◌, ◌≡◌, ◌≢◌, refl, ◌⊎◌, inl, inr, arith,
  unwrap_or,
}
use imbh_c.Engine.{Engine}
use imbh_c.Types.Imbh.{done, Async, IngestReceipt}
use imbh_c.Types.Ffi.{Ptr, null, ImbhIngestReceipt}
use imbh_c.Memory.{
  Store, View, block_on, ImbhDb, CallError, ok, pure, db_view, bytes_view, receipt_out, update,
  store_if, ◌>>=◌, reject_if, deref,
}
use imbh_c.Memory.Steps.{step, block_on-done}
use imbh_c.Error.{World, Extern, Return, ImbhError, value, success, guard, clear_last_error}
use imbh_c.Error.Laws.{guard-ok}
use imbh_c.Pointers.{handle, bytes, from_raw_parts}
use imbh_c.Pointers.Live.{Live, handle-live, store_if-live, Live-engine}
use imbh_c.Ingest.{
  receipt_of, write_receipt, imbh_db_ingest_logs, imbh_db_ingest_traces, imbh_db_ingest_metrics,
}

-- An LSN in a C struct: none is 0.
pub data Lsn : Option ℕ → ℕ → Type 0 where
  given : {l n : ℕ} → n ≡ l → Lsn (some l) n
  missing : {n : ℕ} → n ≡ 0 → Lsn none n

pub Lsn-unwrap_or : (o : Option ℕ) → Lsn o (unwrap_or 0 o)
Lsn-unwrap_or (some l) = Lsn.given refl
Lsn-unwrap_or none = Lsn.missing refl

-- The C struct reports this receipt.
pub record Acknowledges (r : IngestReceipt) (c : ImbhIngestReceipt) : Type 0 where
  pub accepted : c.accepted ≡ r.accepted
  pub rejected : c.rejected ≡ r.rejected
  pub lsn : Lsn r.lsn c.lsn
  pub durable : c.durable ≡ r.durable
  pub queued : c.queued ≡ r.is_queued

receipt_of-Acknowledges : (r : IngestReceipt) → Acknowledges r (receipt_of r)
receipt_of-Acknowledges r = record {
  accepted = refl;
  rejected = refl;
  lsn = Lsn-unwrap_or r.lsn;
  durable = refl;
  queued = refl;
}

-- Which of the three calls.
pub data Signal : Type 0 where
  logs traces metrics : Signal

module _ ⦃eng : Engine⦄ where
  unfoldable pub ingest : Signal → Ptr → Ptr → ℕ → Ptr → Extern ImbhError
  ingest Signal.logs = imbh_db_ingest_logs
  ingest Signal.traces = imbh_db_ingest_traces
  ingest Signal.metrics = imbh_db_ingest_metrics

  -- The engine's method for the signal.
  unfoldable pub engine_ingest : Signal → eng.Db → List ℕ → Async eng.State eng.Error IngestReceipt
  engine_ingest Signal.logs = eng.ingest_otlp_logs
  engine_ingest Signal.traces = eng.ingest_otlp_traces
  engine_ingest Signal.metrics = eng.ingest_otlp_metrics

  -- The body that the caller passes: nothing, at any pointer, or the first bytes of a live buffer.
  pub data Body (s : Store) (p : Ptr) : ℕ → List ℕ → Type 0 where
    nothing : Body s p 0 []
    some_bytes :
        {n : ℕ} {bs : List ℕ}
        → Live bytes_view s p bs
        → n ≤ length bs
        → n ≢ 0
        → Body s p n (take n bs)

  bytes-Body :
      {s : Store} {p : Ptr} {n : ℕ} {body : List ℕ} → Body s p n body → bytes p n s ≡ (ok body, s)
  unfolding bytes from_raw_parts deref pure ◌>>=◌ reject_if
  bytes-Body nothing = refl
  bytes-Body (some_bytes l h ne) = ground arith

  -- Where the receipt goes: nowhere, or into a live slot.
  pub data Slot (s : Store) : Ptr → Type 0 where
    unwanted : Slot s null
    wanted : {out : Ptr} {old : Option ImbhIngestReceipt} → Live receipt_out s out old → Slot s out

  -- What the call comes to: the engine's state and no other change, or the receipt in its slot too.
  abbrev pub Acknowledged :
      IngestReceipt → Ptr → eng.State → World → Return ImbhError × World → Type 0
  Acknowledged rc out st w r =
      ((out ≡ null)
        × (r ≡ (
          value success,
          clear_last_error (record w { store = record w.store { engine = st } }),
        )))
      ⊎ ((out ≢ null)
          × ((c : ImbhIngestReceipt) × Acknowledges rc c
              × (r ≡ (
                value success,
                clear_last_error (record w {
                  store = record w.store {
                    mem = update w.store.mem out (some (receipt_out.wrap (some c)));
                    engine = st;
                  };
                }),
              ))))

  not_null : {s : Store} {A : Type 0} {v : View A} {p : Ptr} {a : A} → Live v s p a → p ≢ null
  not_null l h = absurd (ground (arith, l.not_null, h))

  write_receipt-null :
      {E : Type 0} (rc : IngestReceipt) (s : Store) → write_receipt {E = E} null rc s ≡ (ok tt, s)
  unfolding write_receipt store_if pure
  write_receipt-null rc s = refl

  ingest_with :
      (m : eng.Db → List ℕ → Async eng.State eng.Error IngestReceipt) (db otlp : Ptr) (len : ℕ)
      (out : Ptr) (w : World) {h : ImbhDb} {body : List ℕ} {rc : IngestReceipt} {st : eng.State}
      → Live db_view w.store db h
      → Body w.store otlp len body
      → Slot w.store out
      → m h.db body w.store.engine ≡ (done rc, st)
      → Acknowledged rc out st w (
          guard
            (handle db >>= λ h. bytes otlp len >>= λ body.
              block_on CallError.imbh (m h.db body) >>= λ r. write_receipt out r)
            w)
  unfolding write_receipt
  ingest_with m db otlp len out w {rc} {st} l b unwanted e = inl (
    refl,
    guard-ok _ w (
        step _ _ (handle-live l)
          (step _ _ (bytes-Body b) (step _ _ (block_on-done _ _ _ e) (write_receipt-null rc _)))),
  )
  ingest_with m db otlp len out w {rc} {st} l b (wanted o) e = inr (
    not_null o,
    (
      receipt_of rc,
      receipt_of-Acknowledges rc,
      guard-ok _ w (
          step _ _ (handle-live l) (
            step _ _ (bytes-Body b)
              (step _ _ (block_on-done _ _ _ e) (store_if-live (Live-engine o st) _)))),
    ),
  )

  -- On a live handle and a body that is empty or the first bytes of a live buffer, when the engine
  -- takes that body by its method for the signal: the call returns success and keeps what the
  -- engine did. With a null receipt pointer it writes nothing; with a live one it writes the counts,
  -- the flags and the LSN of the engine's receipt, 0 for no LSN.
  pub ingest-Acknowledged :
      (sig : Signal) (db otlp : Ptr) (len : ℕ) (out : Ptr) (w : World) {h : ImbhDb} {body : List ℕ}
      {rc : IngestReceipt} {st : eng.State}
      → Live db_view w.store db h
      → Body w.store otlp len body
      → Slot w.store out
      → engine_ingest sig h.db body w.store.engine ≡ (done rc, st)
      → Acknowledged rc out st w (ingest sig db otlp len out w)
  unfolding ingest engine_ingest imbh_db_ingest_logs imbh_db_ingest_traces imbh_db_ingest_metrics
  ingest-Acknowledged Signal.logs db otlp len out w =
      ingest_with eng.ingest_otlp_logs db otlp len out w
  ingest-Acknowledged Signal.traces db otlp len out w =
      ingest_with eng.ingest_otlp_traces db otlp len out w
  ingest-Acknowledged Signal.metrics db otlp len out w =
      ingest_with eng.ingest_otlp_metrics db otlp len out w
