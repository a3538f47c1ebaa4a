-- ===== src/Store/DingTalk/Text/Fence.antt =====
-- internal/store/dingtalk_store.go: three backticks in the text of a log.
use docker_monitor.Model.{LogEvent}
use docker_monitor.Prelude.{
  Bool, Bool-cases, [], arith, false, if◌then◌else◌, inl, inr, length, ltb, refl, suc, take, true,
  zero, ℕ, ◌&&◌, ◌++◌, ◌==◌, ◌||◌, ◌∷◌, ◌≡◌,
}
use docker_monitor.Prelude.Bytes.{Bytes, is_empty}
use docker_monitor.Prelude.Bytes.Space.{trim_space}
use docker_monitor.Store.DingTalk.Text.{cut_detail, detailed_log, max_detail_length, replace_fences}

abbrev pub is_backtick : ℕ → Bool
is_backtick c = c == 0x60

-- Whether a text has three backticks in a row.
abbrev pub has_fence : Bytes → Bool
has_fence (a ∷ b ∷ c ∷ s) =
    (is_backtick a && is_backtick b && is_backtick c) || has_fence (b ∷ c ∷ s)
has_fence s = false

-- Whether a text begins with one or with two.
abbrev begins_one : Bytes → Bool
begins_one [] = false
begins_one (a ∷ s) = is_backtick a

abbrev begins_two : Bytes → Bool
begins_two [] = false
begins_two (a ∷ s) = is_backtick a && begins_one s

replace-begins_one : (s : Bytes) → begins_one (replace_fences s) ≡ true → begins_one s ≡ true
unfolding replace_fences
replace-begins_one [] h = h
replace-begins_one (a ∷ []) h = h
replace-begins_one (a ∷ b ∷ []) h = h
replace-begins_one (a ∷ b ∷ c ∷ s) h = ground (arith, h)

replace-begins_two : (s : Bytes) → begins_two (replace_fences s) ≡ true → begins_two s ≡ true
unfolding replace_fences
replace-begins_two [] h = h
replace-begins_two (a ∷ []) h = h
replace-begins_two (a ∷ b ∷ []) h = h
replace-begins_two (a ∷ b ∷ c ∷ s) h = ground (arith, h, replace-begins_one (b ∷ c ∷ s))

has_fence-cons :
    (a : ℕ) (s : Bytes) → has_fence (a ∷ s) ≡ ((is_backtick a && begins_two s) || has_fence s)
has_fence-cons a [] = ground arith
has_fence-cons a (b ∷ []) = ground arith
has_fence-cons a (b ∷ c ∷ s) = ground arith

replace_fences-has_fence : (s : Bytes) → has_fence (replace_fences s) ≡ false
unfolding replace_fences
replace_fences-has_fence [] = refl
replace_fences-has_fence (a ∷ []) = refl
replace_fences-has_fence (a ∷ b ∷ []) = refl
replace_fences-has_fence (a ∷ b ∷ c ∷ s) = ground (
  arith,
  replace_fences-has_fence s,
  replace_fences-has_fence (b ∷ c ∷ s),
  replace-begins_two (b ∷ c ∷ s),
  has_fence-cons a (replace_fences (b ∷ c ∷ s)),
  has_fence-cons 0x27 (replace_fences s),
  has_fence-cons 0x27 (0x27 ∷ replace_fences s),
  has_fence-cons 0x27 (0x27 ∷ 0x27 ∷ replace_fences s),
)

begins_one-take_append :
    (n : ℕ) (s tail : Bytes)
    → begins_one tail ≡ false
    → begins_one (take n s ++ tail) ≡ true
    → begins_one s ≡ true
begins_one-take_append zero s tail one h = cc
begins_one-take_append (suc n) [] tail one h = cc
begins_one-take_append (suc n) (a ∷ s) tail one h = h

begins_two-take_append :
    (n : ℕ) (s tail : Bytes)
    → begins_one tail ≡ false
    → begins_two (take n s ++ tail) ≡ true
    → begins_two s ≡ true
begins_two-take_append zero [] [] one h = h
begins_two-take_append zero (a ∷ s) [] one h = cc
begins_two-take_append zero s (b ∷ tail) one h = ground (arith, one, h)
begins_two-take_append (suc n) [] [] one h = h
begins_two-take_append (suc n) [] (b ∷ tail) one h = ground (arith, one, h)
begins_two-take_append (suc n) (a ∷ s) tail one h =
    ground (arith, h, begins_one-take_append n s tail one)

has_fence-take_append :
    (n : ℕ) (s tail : Bytes)
    → has_fence s ≡ false
    → begins_one tail ≡ false
    → has_fence tail ≡ false
    → has_fence (take n s ++ tail) ≡ false
has_fence-take_append zero s tail h one none_there = none_there
has_fence-take_append (suc n) [] tail h one none_there = none_there
has_fence-take_append (suc n) (a ∷ s) tail h one none_there = ground (
  arith,
  h,
  has_fence-cons a s,
  has_fence-cons a (take n s ++ tail),
  has_fence-take_append n s tail (ground (arith, h, has_fence-cons a s)) one none_there,
  begins_two-take_append n s tail one,
)

cut_detail-has_fence : (s : Bytes) → has_fence s ≡ false → has_fence (cut_detail s) ≡ false
cut_detail-has_fence s h = elim (Bool-cases (ltb max_detail_length (length s))) [
  | inl long ↦ rw long (has_fence-take_append max_detail_length s _ h refl refl)
  | inr fits ↦ rw fits h
]

-- The log text of an event, as it is shown, has no three backticks in a row, whatever the program logged
-- and wherever the text is cut.
pub detailed_log-has_fence : (event : LogEvent) → has_fence (detailed_log event) ≡ false
unfolding detailed_log
detailed_log-has_fence event =
    let raw = trim_space event.raw in
    let detail = if is_empty raw then trim_space event.message else raw in
    elim (Bool-cases (is_empty detail)) [
      | inl nothing ↦ rw nothing refl
      | inr there ↦
          rw there (cut_detail-has_fence (replace_fences detail) (replace_fences-has_fence detail))
    ]
