-- ===== src/Docker/Ssh/Reader.antt =====
-- A reader of quoted words, by the rules of a POSIX shell for quotes and spaces. It refuses whatever
-- else a shell could give a meaning: any other character outside quotes, and a dollar sign, a
-- backquote, a backslash or an exclamation mark between double quotes.
use mathlib.Core.List.{append-nil, append_assoc}
use docker_monitor.Docker.Ssh.{escape_quotes, shell_join, shell_quote}
use docker_monitor.Prelude.{
  Bool, Bool-cases, List, Option, [], ap, arith, if◌then◌else◌, inl, inr, none, refl, some, sym, ℕ,
  ◌++◌, ◌==◌, ◌||◌, ◌∙◌, ◌∷◌, ◌≡◌,
}
use docker_monitor.Prelude.Bytes.{Bytes, text}

pub data Mode : Type 0 where
  bare : Mode
  in_single : Mode
  in_double : Mode

-- The word so far, to which a byte is added; none where no word has begun.
abbrev pub word_of : Option Bytes → Bytes
word_of none = []
word_of (some w) = w

abbrev pub with_word : Option Bytes → Option (List Bytes) → Option (List Bytes)
with_word w none = none
with_word none (some ws) = some ws
with_word (some w) (some ws) = some (w ∷ ws)

abbrev pub is_special : ℕ → Bool
is_special c = c == b'$' || c == b'`' || c == b'\\' || c == b'!'

abbrev pub read_words : Mode → Option Bytes → Bytes → Option (List Bytes)
read_words bare w [] = with_word w (some [])
read_words in_single w [] = none
read_words in_double w [] = none
read_words bare w (c ∷ s) =
    let single = read_words in_single (some (word_of w)) s in
    let double = read_words in_double (some (word_of w)) s in
    let next_word = read_words bare none s in
    if c == b'\''
    then single
    else if c == b'"'
    then double
    else if c == b' '
    then with_word w next_word
    else none
read_words in_single w (c ∷ s) =
    let over = read_words bare w s in
    let more = read_words in_single (some (word_of w ++ c ∷ [])) s in
    if c == b'\'' then over else more
read_words in_double w (c ∷ s) =
    let over = read_words bare w s in
    let more = read_words in_double (some (word_of w ++ c ∷ [])) s in
    if c == b'"' then over else if is_special c then none else more

-- Between single quotes, an escaped text adds itself to the word.
read-escape :
    (w s rest : Bytes)
    → read_words in_single (some w) (escape_quotes s ++ text "'" ++ rest)
      ≡ read_words bare (some (w ++ s)) rest
read-escape w [] rest = rw (append-nil w) refl
read-escape w (c ∷ s) rest = elim (Bool-cases (c == b'\'')) [
  | inl quote ↦
      let same : c ≡ b'\'' = ground (arith, quote) in
      rw (quote, same)
        (read-escape (w ++ b'\'' ∷ []) s rest
          ∙ ap (λ x. read_words bare (some x) rest) (append_assoc w (b'\'' ∷ []) s))
  | inr other ↦
      rw (other, other)
        (read-escape (w ++ c ∷ []) s rest
          ∙ ap (λ x. read_words bare (some x) rest) (append_assoc w (c ∷ []) s))
]

read-quote :
    (p rest : Bytes) → read_words bare none (shell_quote p ++ rest) ≡ read_words bare (some p) rest
unfolding shell_quote
read-quote [] rest = refl
read-quote (c ∷ s) rest = read-escape [] (c ∷ s) rest

-- The words of a joined command are, for every list of texts, these texts again, whatever bytes they
-- have: none is split, expanded or lost.
pub read-join : (parts : List Bytes) → read_words bare none (shell_join parts) ≡ some parts
unfolding shell_join
read-join [] = refl
read-join (p ∷ []) = ap (read_words bare none) (sym (append-nil (shell_quote p))) ∙ read-quote p []
read-join (p ∷ q ∷ parts) =
    ap (read_words bare none) (append_assoc (shell_quote p) (text " ") (shell_join (q ∷ parts)))
    ∙ read-quote p (text " " ++ shell_join (q ∷ parts))
    ∙ ap (with_word (some p)) (read-join (q ∷ parts))
