-- ===== src/Text.antt =====
-- The methods of Python's `str` that the code uses. A text is a list of characters.
pub mod Strip
use Prim.Native.Char.{Char, code}
use Prim.Native.String.{[], ◌∷◌, ◌++◌, count}
use text.Mathlib.Text.{starts_with}
use downtime_aware_recovery.Common.{
  ℕ, suc, zero, ◌-◌, String, Bool, true, false, not, ◌&&◌, ◌||◌, Option, none, some, leb, nat_eq,
  ◌==◌, if◌then◌else◌,
}

-- `str.isspace` of one character.
unfoldable pub is_space : Char → Bool
is_space c =
    leb 9 (code c) && leb (code c) 13
    || leb 28 (code c) && leb (code c) 32
    || nat_eq (code c) 133
    || nat_eq (code c) 160
    || nat_eq (code c) 5760
    || leb 8192 (code c) && leb (code c) 8202
    || leb 8232 (code c) && leb (code c) 8233
    || nat_eq (code c) 8239
    || nat_eq (code c) 8287
    || nat_eq (code c) 12288

abbrev pub is_blank : String → Bool
is_blank [] = true
is_blank (c ∷ s) = is_space c && is_blank s

abbrev pub has_text : String → Bool
has_text [] = false
has_text (c ∷ s) = true

-- `str.lstrip`.
unfoldable pub lstrip : String → String
lstrip [] = []
lstrip (c ∷ s) = let rest = lstrip s in if is_space c then rest else c ∷ s

-- `str.rstrip`.
unfoldable pub rstrip : String → String
rstrip [] = []
rstrip (c ∷ s) = let rest = rstrip s in if not (has_text rest) && is_space c then [] else c ∷ rest

-- `str.strip`.
unfoldable pub strip : String → String
strip s = rstrip (lstrip s)

-- `text.split("\n", 1)[1]`, and none where there is no line end.
unfoldable pub after_line : String → Option String
after_line [] = none
after_line (c ∷ s) = let rest = after_line s in if nat_eq (code c) 10 then some s else rest

-- `text[n:]` and `text[:n]`.
unfoldable pub drop : ℕ → String → String
drop zero s = s
drop (suc n) [] = []
drop (suc n) (c ∷ s) = drop n s

unfoldable pub take : ℕ → String → String
take zero s = []
take (suc n) [] = []
take (suc n) (c ∷ s) = c ∷ take n s

-- `str.endswith`.
unfoldable pub ends_with : String → String → Bool
ends_with s t = leb (count t) (count s) && drop (count s - count t) s == t

-- `needle in text`.
unfoldable pub contains : String → String → Bool
contains needle [] = starts_with [] needle
contains needle (c ∷ s) = starts_with (c ∷ s) needle || contains needle s

-- The character of `to` at the position at which `c` stands in `from`.
unfoldable pub translate : String → String → Char → Char
translate [] to c = c
translate (a ∷ from) [] c = c
translate (a ∷ from) (b ∷ to) c =
    let rest = translate from to c in if nat_eq (code a) (code c) then b else rest

-- `str.lower`, of the letters of ASCII.
unfoldable pub lower : String → String
lower [] = []
lower (c ∷ s) = translate "ABCDEFGHIJKLMNOPQRSTUVWXYZ" "abcdefghijklmnopqrstuvwxyz" c ∷ lower s
