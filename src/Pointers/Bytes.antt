-- ===== src/Pointers/Bytes.antt =====
-- A buffer from the call that makes it to `imbh_bytes_free` (src/lib.rs).
use imbh_c.Common.{ℕ, suc, ◌≡◌, refl, none, List, [], ◌∷◌, arith, take-length, length}
use imbh_c.Engine.{Engine}
use imbh_c.Types.Ffi.{Ptr, ImbhBytes}
use imbh_c.Memory.{Store, ok, pure, alloc, peek, update, deref, ◌>>=◌, reject_if, take_back, fault}
use imbh_c.Error.{World, value, unguarded}
use imbh_c.Pointers.{make_bytes, bytes, from_raw_parts, imbh_bytes_free, drop_slice}

module _ ⦃eng : Engine⦄ where
  -- The bytes handed out are the bytes given in, at the length that the struct carries, and freeing
  -- the struct succeeds and leaves every cell as it was before, the empty buffer included. The
  -- address after the last one given out is free.
  pub make_bytes-roundtrip :
      (v : List ℕ) (w : World)
      → w.store.mem (suc w.store.last) ≡ none
      → (buf : ImbhBytes) × (s : Store) × (make_bytes {E = ⊥} v w.store ≡ (ok buf, s))
        × (bytes buf.bytes buf.len s ≡ (ok v, s))
        × ((imbh_bytes_free buf (record w { store = s })).0 ≡ value tt)
        × ((p : Ptr) → (imbh_bytes_free buf (record w { store = s })).1.store.mem p ≡ w.store.mem p)
  unfolding make_bytes bytes from_raw_parts imbh_bytes_free drop_slice unguarded alloc peek update
      deref ◌>>=◌ take_back pure fault reject_if
  make_bytes-roundtrip [] w f =
      (record { bytes = 1; len = 0 }, w.store, refl, refl, refl, λ p. refl)
  make_bytes-roundtrip (b ∷ v) w f = (
    record { bytes = suc w.store.last; len = length (b ∷ v) },
    _,
    refl,
    ground (arith, take-length v),
    ground arith,
    λ p. ground arith,
  )
