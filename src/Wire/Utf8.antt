-- ===== src/Wire/Utf8.antt =====
-- `core::str::from_utf8` accepts a slice exactly if it is well-formed UTF-8 (the table of
-- well-formed byte sequences of the Unicode standard). A Rust string is such a list of bytes.
use neural_sgdb.Prelude.{
  ℕ, zero, suc, Bool, false, ◌&&◌, Option, none, some, List, [], ◌∷◌, leb, ltb, ◌==◌, if◌then◌else◌,
}

-- How many continuation bytes are due, and the range of the next one.
pub record Utf8State : Type 0 where
  pub due : ℕ
  pub lo : ℕ
  pub hi : ℕ

abbrev pub ready : Utf8State
ready = record { due = 0; lo = 0x80; hi = 0xbf }

within : ℕ → ℕ → ℕ → Bool
within lo hi b = leb lo b && leb b hi

-- The state after a byte that begins a character.
first_byte : ℕ → Option Utf8State
unfolding within
first_byte b =
    if ltb b 0x80
    then some ready
    else if within 0xc2 0xdf b
    then some (record { due = 1; lo = 0x80; hi = 0xbf })
    else if b == 0xe0
    then some (record { due = 2; lo = 0xa0; hi = 0xbf })
    else if b == 0xed
    then some (record { due = 2; lo = 0x80; hi = 0x9f })
    else if within 0xe1 0xef b
    then some (record { due = 2; lo = 0x80; hi = 0xbf })
    else if b == 0xf0
    then some (record { due = 3; lo = 0x90; hi = 0xbf })
    else if within 0xf1 0xf3 b
    then some (record { due = 3; lo = 0x80; hi = 0xbf })
    else if b == 0xf4
    then some (record { due = 3; lo = 0x80; hi = 0x8f })
    else none

next_byte : ℕ → ℕ → ℕ → ℕ → Option Utf8State
unfolding within first_byte
next_byte zero lo hi b = first_byte b
next_byte (suc due) lo hi b =
    if within lo hi b then some (record { due = due; lo = 0x80; hi = 0xbf }) else none

scan : Utf8State → List ℕ → Bool
unfolding next_byte
scan s [] = s.due == 0
scan s (b ∷ rest) = elim (next_byte s.due s.lo s.hi b) [ none ↦ false | some s' ↦ scan s' rest ]

unfoldable pub is_utf8 : List ℕ → Bool
unfolding scan
is_utf8 bs = scan ready bs
