-- ===== src/Common/Utf8.antt =====
-- What `core::str` and `CString` do with bytes: validation of UTF-8, the replacement of NUL by
-- U+FFFD in `set_last_error`, and the search for an interior NUL.
use Prim.Native.Nat.{ℕ}
use mathlib.Core.Path.{◌≡◌, refl}
use mathlib.Core.Bool.{Bool, true, false, ◌&&◌, ◌||◌}
use mathlib.Core.List.{List, [], ◌∷◌}
use mathlib.Core.Option.{Option, none, some}
use native.Mathlib.Omega.{arith}
use mathlib.Core.Logic.{inl, inr}
use imbh_c.Common.Tests.{ltb, leb, ◌==◌, if◌then◌else◌, Bool-cases, Option-cases}

abbrev in_range : ℕ → ℕ → ℕ → Bool
in_range lo hi b = leb lo b && leb b hi

-- What the bytes read so far still want: nothing, a number of continuation bytes, or a second
-- byte in a narrower range (after E0, ED, F0, F4).
pub data Wants : Type 0 where
  nothing one two three after_e0 after_ed after_f0 after_f4 : Wants

-- The table of well-formed sequences.
unfoldable pub lead : ℕ → Option Wants
lead b =
    if ltb b 0x80
    then some nothing
    else if in_range 0xc2 0xdf b
    then some one
    else if b == 0xe0
    then some after_e0
    else if b == 0xed
    then some after_ed
    else if in_range 0xe1 0xef b
    then some two
    else if b == 0xf0
    then some after_f0
    else if in_range 0xf1 0xf3 b
    then some three
    else if b == 0xf4
    then some after_f4
    else none

unfoldable pub step : Wants → ℕ → Option Wants
unfolding lead
step nothing b = lead b
step one b = if in_range 0x80 0xbf b then some nothing else none
step two b = if in_range 0x80 0xbf b then some one else none
step three b = if in_range 0x80 0xbf b then some two else none
step after_e0 b = if in_range 0xa0 0xbf b then some one else none
step after_ed b = if in_range 0x80 0x9f b then some one else none
step after_f0 b = if in_range 0x90 0xbf b then some two else none
step after_f4 b = if in_range 0x80 0x8f b then some two else none

abbrev pub ends : Wants → Bool
ends nothing = true
ends _ = false

unfoldable pub valid_from : Wants → List ℕ → Bool
unfolding step
valid_from st [] = ends st
valid_from st (b ∷ bs) = elim (step st b) [ none ↦ false | some st' ↦ valid_from st' bs ]

-- `str::from_utf8(bytes).is_ok()`
unfoldable pub is_utf8 : List ℕ → Bool
unfolding valid_from
is_utf8 = valid_from nothing

-- `msg.replace('\0', "\u{fffd}")`
unfoldable pub replace_nul : List ℕ → List ℕ
replace_nul [] = []
replace_nul (b ∷ bs) =
    let rest = replace_nul bs in if b == 0 then 0xef ∷ 0xbf ∷ 0xbd ∷ rest else b ∷ rest

unfoldable pub has_nul : List ℕ → Bool
has_nul [] = false
has_nul (b ∷ bs) = (b == 0) || has_nul bs

-- A replaced text holds no NUL, so it fits a C string.
pub has_nul-replace_nul : (bs : List ℕ) → has_nul (replace_nul bs) ≡ false
unfolding has_nul replace_nul
has_nul-replace_nul [] = refl
has_nul-replace_nul (b ∷ bs) = ground (arith, has_nul-replace_nul bs)

-- Without a NUL nothing is replaced.
pub replace_nul-id : (bs : List ℕ) → has_nul bs ≡ false → replace_nul bs ≡ bs
unfolding has_nul replace_nul
replace_nul-id [] h = refl
replace_nul-id (b ∷ bs) h = ground (arith, replace_nul-id bs)

step-zero : (st st' : Wants) → step st 0 ≡ some st' → (st ≡ nothing) × (st' ≡ nothing)
unfolding step
step-zero nothing st' h = ground arith
step-zero one st' h = ground arith
step-zero _ st' h = ground arith

-- Replacing keeps a text well-formed, whatever the bytes before it wanted.
valid_from-replace_nul :
    (st : Wants) (bs : List ℕ) → valid_from st bs ≡ true → valid_from st (replace_nul bs) ≡ true
unfolding valid_from replace_nul
valid_from-replace_nul st [] h = h
valid_from-replace_nul st (b ∷ bs) h = elim (Option-cases (step st b)) [
  | inl refused ↦ ground arith
  | inr (st', wants) ↦ elim (Bool-cases (b == 0)) [
    | inl nul ↦ ground (arith, step-zero st st', valid_from-replace_nul st' bs)
    | inr other ↦ ground (arith, valid_from-replace_nul st' bs)
  ]
]

pub is_utf8-replace_nul : (bs : List ℕ) → is_utf8 bs ≡ true → is_utf8 (replace_nul bs) ≡ true
unfolding is_utf8
is_utf8-replace_nul bs h = valid_from-replace_nul nothing bs h
