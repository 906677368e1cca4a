-- ===== src/Prelude/Texts.antt =====
-- Texts: the native `String` where the program compares whole texts, and bytes where it decodes
-- them. A `str` of Rust is its bytes, and all constants of the program are ASCII.
use Prim.Native.Nat.{ℕ, ◌+◌, ◌-◌, ◌/◌, ◌%◌}
use Prim.Native.Char.{code}
use Prim.Native.String.{String}
use mathlib.Core.Path.{◌≡◌}
use mathlib.Core.Logic.{◌↔◌}
use mathlib.Core.Bool.{Bool, true, false, ◌&&◌}
use mathlib.Core.Option.{Option, none, some}
use mathlib.Core.List.{List, [], ◌∷◌, ◌++◌}
use native.Mathlib.Omega.{arith}
use gate_link.Prelude.Tests.{leb, ltb, ◌==◌, if◌then◌else◌}

-- The bytes of a text in ASCII.
abbrev pub bytes : String → List ℕ
bytes String.[] = []
bytes (String.◌∷◌ c s) = code c ∷ bytes s

-- The bytes of a character in UTF-8.
utf8_char : ℕ → List ℕ
utf8_char c =
    if ltb c 128
    then c ∷ []
    else if ltb c 2048
    then (192 + c / 64) ∷ (128 + c % 64) ∷ []
    else if ltb c 65536
    then (224 + c / 4096) ∷ (128 + (c / 64) % 64) ∷ (128 + c % 64) ∷ []
    else (240 + c / 262144) ∷ (128 + (c / 4096) % 64) ∷ (128 + (c / 64) % 64) ∷ (128 + c % 64) ∷ []

-- `str::as_bytes`, of any text.
unfoldable pub utf8 : String → List ℕ
unfolding utf8_char
utf8 String.[] = []
utf8 (String.◌∷◌ c s) = utf8_char (code c) ++ utf8 s

infix 50 ◌==ᵇ◌
abbrev pub ◌==ᵇ◌ : List ℕ → List ℕ → Bool
[] ==ᵇ [] = true
(x ∷ xs) ==ᵇ (y ∷ ys) = x == y && xs ==ᵇ ys
_ ==ᵇ _ = false

pub eq_bytes_iff : (xs ys : List ℕ) → (xs ==ᵇ ys ≡ true) ↔ (xs ≡ ys)
eq_bytes_iff [] [] = ground arith
eq_bytes_iff [] (y ∷ ys) = ground arith
eq_bytes_iff (x ∷ xs) [] = ground arith
eq_bytes_iff (x ∷ xs) (y ∷ ys) = ground (arith, eq_bytes_iff xs ys)

-- Where a decoder of UTF-8 is: between characters, or before `left` more bytes, the next of which is
-- between `low` and `high`.
pub data Expect : Type 0 where
  boundary : Expect
  inside : ℕ → ℕ → ℕ → Expect

between : ℕ → ℕ → ℕ → Bool
between low high b = leb low b && leb b high

lead : ℕ → Option Expect
unfolding between
lead b =
    if ltb b 128
    then some boundary
    else if between 194 223 b
    then some (inside 1 128 191)
    else if b == 224
    then some (inside 2 160 191)
    else if b == 237
    then some (inside 2 128 159)
    else if between 225 239 b
    then some (inside 2 128 191)
    else if b == 240
    then some (inside 3 144 191)
    else if between 241 243 b
    then some (inside 3 128 191)
    else if b == 244
    then some (inside 3 128 143)
    else none

after_byte : ℕ → Expect
after_byte left = if leb left 1 then boundary else inside (left - 1) 128 191

expect : Expect → ℕ → Option Expect
unfolding lead after_byte between
expect boundary b = lead b
expect (inside left low high) b = if between low high b then some (after_byte left) else none

valid_from : Option Expect → List ℕ → Bool
unfolding expect
valid_from none bs = false
valid_from (some boundary) [] = true
valid_from (some (inside _ _ _)) [] = false
valid_from (some e) (b ∷ bs) = valid_from (expect e b) bs

-- `core::str::from_utf8`.
unfoldable pub from_utf8 : List ℕ → Option (List ℕ)
unfolding valid_from
from_utf8 bs = if valid_from (some boundary) bs then some bs else none
