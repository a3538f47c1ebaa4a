-- ===== src/Prelude/Bytes/Space.antt =====
-- strings.TrimSpace on the bytes of UTF-8 text, and strings.TrimRight with a set of one byte.
use Prim.Native.Nat.{suc, zero, ℕ}
use mathlib.Core.Bool.{Bool, ◌&&◌, ◌||◌}
use mathlib.Core.List.{[], reverse, ◌∷◌}
use mathlib.Core.Path.{refl, ◌≡◌}
use docker_monitor.Prelude.Bytes.{Bytes, text}
use docker_monitor.Prelude.Tests.{if◌then◌else◌, leb, ◌==◌}

abbrev is_ascii_space : ℕ → Bool
is_ascii_space c = c == 0x20 || (leb 0x09 c && leb c 0x0d)

-- U+0085 and U+00A0
abbrev is_space_pair : ℕ → ℕ → Bool
is_space_pair a b = a == 0xc2 && (b == 0x85 || b == 0xa0)

-- U+1680, U+2000 to U+200A, U+2028, U+2029, U+202F, U+205F, U+3000
abbrev is_space_triple : ℕ → ℕ → ℕ → Bool
is_space_triple a b c =
    (a == 0xe1 && b == 0x9a && c == 0x80)
    || (a == 0xe2
        && b == 0x80
        && ((leb 0x80 c && leb c 0x8a) || c == 0xa8 || c == 0xa9 || c == 0xaf))
    || (a == 0xe2 && b == 0x81 && c == 0x9f)
    || (a == 0xe3 && b == 0x80 && c == 0x80)

-- The width of the white space that the text begins with, 0 where it begins with none.
leading : Bytes → ℕ
leading [] = 0
leading (a ∷ []) = if is_ascii_space a then 1 else 0
leading (a ∷ b ∷ []) = if is_ascii_space a then 1 else if is_space_pair a b then 2 else 0
leading (a ∷ b ∷ c ∷ s) =
    if is_ascii_space a
    then 1
    else if is_space_pair a b
    then 2
    else if is_space_triple a b c
    then 3
    else 0

-- The same for a text read from its end.
trailing : Bytes → ℕ
trailing [] = 0
trailing (a ∷ []) = if is_ascii_space a then 1 else 0
trailing (b ∷ a ∷ []) = if is_ascii_space b then 1 else if is_space_pair a b then 2 else 0
trailing (c ∷ b ∷ a ∷ s) =
    if is_ascii_space c
    then 1
    else if is_space_pair b c
    then 2
    else if is_space_triple a b c
    then 3
    else 0

-- Drops white space as long as `width` finds some; the number counts the bytes still to be dropped.
strip : (Bytes → ℕ) → ℕ → Bytes → Bytes
strip width n [] = []
strip width (suc n) (c ∷ s) = strip width n s
strip width zero (c ∷ s) = elim (width (c ∷ s)) [ zero ↦ c ∷ s | suc n ↦ strip width n s ]

unfoldable pub trim_space : Bytes → Bytes
unfolding leading trailing strip
trim_space s = reverse (strip trailing 0 (reverse (strip leading 0 s)))

-- strings.TrimLeft(s, string(c))
trim_left_byte : ℕ → Bytes → Bytes
trim_left_byte c [] = []
trim_left_byte c (x ∷ s) = let rest = trim_left_byte c s in if x == c then rest else x ∷ s

-- strings.TrimRight(s, string(c))
unfoldable pub trim_right_byte : ℕ → Bytes → Bytes
unfolding trim_left_byte
trim_right_byte c s = reverse (trim_left_byte c (reverse s))

trim_space_runs : trim_space (text " \t a b\u{3000}") ≡ text "a b"
unfolding trim_space
trim_space_runs = refl
