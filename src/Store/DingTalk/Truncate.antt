-- ===== src/Store/DingTalk/Truncate.antt =====
-- internal/store/dingtalk_store.go: truncatePayloadString and truncateUTF8ByBytes.
pub mod Search
mod Tests
use docker_monitor.Prelude.{
  Bool, Option, [], if◌then◌else◌, leb, length, ltb, none, not, some, suc, take, zero, ℕ, ◌&&◌,
  ◌++◌, ◌+◌, ◌-◌, ◌/◌, ◌∷◌,
}
use docker_monitor.Prelude.Bytes.{Bytes, text}
use docker_monitor.Prelude.Bytes.Space.{trim_right_byte}

-- utf8.RuneStart
abbrev pub rune_start : ℕ → Bool
rune_start c = not (leb 0x80 c && ltb c 0xc0)

-- text[i], 0 beyond the end, which the code does not read
abbrev pub byte_at : ℕ → Bytes → ℕ
byte_at i [] = 0
byte_at zero (c ∷ s) = c
byte_at (suc i) (c ∷ s) = byte_at i s

-- The loop of truncateUTF8ByBytes.
unfoldable pub back_to_rune : ℕ → Bytes → ℕ
back_to_rune zero s = zero
back_to_rune (suc limit) s =
    let lower = back_to_rune limit s in
    if ltb (suc limit) (length s) && not (rune_start (byte_at (suc limit) s))
    then lower
    else suc limit

unfoldable pub truncate_utf8_by_bytes : Bytes → ℕ → Bytes
unfolding back_to_rune
truncate_utf8_by_bytes s limit =
    if leb limit 0 then [] else if leb (length s) limit then s else take (back_to_rune limit s) s

abbrev pub truncation_notice : Bytes
truncation_notice = text "\n\n... (已截断)"

-- `fits` is whether the payload that is built of a text, in JSON, is within maxDingTalkPayloadBytes.
module _ (fits : Bytes → Bool) where
  abbrev pub truncated_at : Bytes → ℕ → Bytes
  truncated_at candidate mid =
      trim_right_byte b'\n' (truncate_utf8_by_bytes candidate mid) ++ truncation_notice

  -- The binary search, on fuel. `top` is high + 1, so that it is no negative number.
  unfoldable pub search : ℕ → Bytes → Bytes → ℕ → ℕ → Bytes
  unfolding truncate_utf8_by_bytes trim_right_byte
  search zero candidate best low top = best
  search (suc fuel) candidate best low top =
      let mid = (low + top - 1) / 2 in
      let upper_half = search fuel candidate (truncated_at candidate mid) (mid + 1) top in
      let lower_half = search fuel candidate best low mid in
      if leb top low
      then best
      else if fits (truncated_at candidate mid)
      then upper_half
      else lower_half

  unfoldable pub truncate_payload_string : Bytes → Option Bytes
  unfolding search trim_right_byte
  truncate_payload_string content =
      let candidate = trim_right_byte b'\n' content in
      if fits truncation_notice
      then some (search (length candidate + 2) candidate truncation_notice 0 (length candidate + 1))
      else none
