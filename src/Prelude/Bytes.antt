-- ===== src/Prelude/Bytes.antt =====
-- Go strings as lists of bytes, and the functions of package strings that the program uses.
pub mod Space
pub mod Index
use Prim.Native.Char.{code}
use Prim.Native.Nat.{ℕ, ◌%◌, ◌+◌, ◌/◌}
use Prim.Native.String.{String}
use mathlib.Core.Bool.{Bool, false, false≢true, true, ◌&&◌}
use mathlib.Core.List.{List, [], ◌++◌, ◌∷◌}
use mathlib.Core.Logic.{◌↔◌, ◌≢◌}
use mathlib.Core.Path.{refl, sym, ◌∙◌, ◌≡◌}
use native.Mathlib.Omega.{arith}
use docker_monitor.Prelude.Tests.{if◌then◌else◌, ltb, ◌==◌}

abbrev pub Bytes : Type 0
Bytes = List ℕ

-- The UTF-8 encoding of one code point.
abbrev utf8 : ℕ → Bytes
utf8 c =
    if ltb c 0x80
    then c ∷ []
    else if ltb c 0x800
    then (0xc0 + c / 64) ∷ (0x80 + c % 64) ∷ []
    else if ltb c 0x10000
    then (0xe0 + c / 4096) ∷ (0x80 + c / 64 % 64) ∷ (0x80 + c % 64) ∷ []
    else (0xf0 + c / 262144) ∷ (0x80 + c / 4096 % 64) ∷ (0x80 + c / 64 % 64) ∷ (0x80 + c % 64) ∷ []

-- A literal of the source.
abbrev pub text : String → Bytes
text String.[] = []
text (String.◌∷◌ c s) = utf8 (code c) ++ text s

unfoldable pub is_empty : Bytes → Bool
is_empty [] = true
is_empty (c ∷ s) = false

unfoldable pub str_eq : Bytes → Bytes → Bool
str_eq [] [] = true
str_eq (x ∷ a) (y ∷ b) = x == y && str_eq a b
str_eq _ _ = false

pub str_eq_iff : (a b : Bytes) → (str_eq a b ≡ true) ↔ (a ≡ b)
unfolding str_eq
str_eq_iff (x ∷ a) (y ∷ b) = ground (arith, str_eq_iff a b)
str_eq_iff _ _ = ground arith

pub str_eq_refl : (a : Bytes) → str_eq a a ≡ true
str_eq_refl a = (str_eq_iff a a).1 refl

pub str_eq_ne : (a b : Bytes) → a ≢ b → str_eq a b ≡ false
str_eq_ne a b h = ground (arith, str_eq_iff a b)

-- strings.HasPrefix
unfoldable pub has_prefix : Bytes → Bytes → Bool
has_prefix s [] = true
has_prefix [] (p ∷ ps) = false
has_prefix (c ∷ s) (p ∷ ps) = c == p && has_prefix s ps

pub str_ne : (a b : Bytes) → str_eq a b ≡ false → a ≢ b
str_ne a b h e = false≢true (sym h ∙ (str_eq_iff a b).1 e)

pub is_empty_iff : (a : Bytes) → (is_empty a ≡ true) ↔ (a ≡ [])
unfolding is_empty
is_empty_iff [] = ground arith
is_empty_iff (c ∷ s) = ground arith
