-- ===== src/Store/DingTalk/Truncate/Search.antt =====
-- internal/store/dingtalk_store.go: the binary search of truncatePayloadString.
use docker_monitor.Prelude.{
  Bool, Bool-cases, arith, false, inl, inr, leb, leb→gt, leb→le, length, ltb, ltb→ge, ltb→lt, not,
  refl, some, suc, sym, take, take_all, true, zero, ℕ, ◌&&◌, ◌+◌, ◌-◌, ◌/◌, ◌<◌, ◌∙◌, ◌≡◌, ◌≤◌, ◌⊎◌,
}
use docker_monitor.Prelude.Bytes.{Bytes}
use docker_monitor.Prelude.Bytes.Space.{trim_right_byte}
use docker_monitor.Store.DingTalk.Truncate.{
  back_to_rune, byte_at, rune_start, search, truncate_payload_string, truncate_utf8_by_bytes,
  truncated_at, truncation_notice,
}

module _ (fits : Bytes → Bool) (candidate : Bytes) where
  -- A text that fits: the longest cut below `low`, or the notice alone where there is none.
  abbrev pub IsBest : Bytes → ℕ → Type 0
  IsBest best low =
      (fits best ≡ true)
      × (((low ≡ 0) × (best ≡ truncation_notice))
          ⊎ ((m : ℕ) × (low ≡ m + 1) × (best ≡ truncated_at fits candidate m)))

  -- Of the cuts, those fit that are shorter than k.
  abbrev pub IsThreshold : ℕ → Type 0
  IsThreshold k = (m : ℕ) → m ≤ length candidate → fits (truncated_at fits candidate m) ≡ ltb m k

  search-IsBest :
      (fuel : ℕ) (best : Bytes) (low top k : ℕ)
      → IsThreshold k
      → low ≤ k
      → k ≤ top
      → top ≤ length candidate + 1
      → top - low < fuel
      → IsBest best low
      → IsBest (search fits fuel candidate best low top) k
  unfolding search
  search-IsBest zero best low top k th lo hi end f b = absurd (omega arith)
  search-IsBest (suc fuel) best low top k th lo hi end f b = elim (Bool-cases (leb top low)) [
    | inl over ↦ let same : low ≡ k = omega (arith, leb→le _ _ over) in rw (over, ← same) b
    | inr open_range ↦
        let mid : ℕ = (low + top - 1) / 2 in
        let more : low < top = leb→gt _ _ open_range in
        let low_mid : low ≤ mid = omega (arith, more) in
        let mid_top : mid < top = omega (arith, more) in
        elim (Bool-cases (fits (truncated_at fits candidate mid))) [
          | inl yes_fits ↦
              let below_k : mid < k =
                ltb→lt _ _ (sym (th mid (omega (arith, mid_top, end))) ∙ yes_fits) in
              rw (open_range, yes_fits)
                (search-IsBest fuel (truncated_at fits candidate mid) (mid + 1) top k th
                  (omega (arith, below_k)) hi end (omega (arith, low_mid, mid_top, f))
                  (yes_fits, inr (mid, refl, refl)))
          | inr too_long ↦
              let from_k : k ≤ mid =
                ltb→ge _ _ (sym (th mid (omega (arith, mid_top, end))) ∙ too_long) in
              rw (open_range, too_long)
                (search-IsBest fuel best low mid k th lo from_k (omega (arith, mid_top, end))
                  (omega (arith, low_mid, mid_top, f)) b)
        ]
  ]

-- Where the notice alone fits, and of the cuts of the text at some number of bytes exactly those fit
-- that are shorter than some k: truncation ends with a text that fits, and that text is the longest
-- cut that fits, or the notice alone where none does.
pub truncate-longest :
    (fits : Bytes → Bool) (content : Bytes) (k : ℕ)
    → fits truncation_notice ≡ true
    → IsThreshold fits (trim_right_byte b'\n' content) k
    → k ≤ length (trim_right_byte b'\n' content) + 1
    → (best : Bytes) × (truncate_payload_string fits content ≡ some best)
      × IsBest fits (trim_right_byte b'\n' content) best k
unfolding truncate_payload_string
truncate-longest fits content k notice th le =
    let candidate : Bytes = trim_right_byte b'\n' content in
    rw notice (
      search fits (length candidate + 2) candidate truncation_notice 0 (length candidate + 1),
      refl,
      search-IsBest fits candidate (length candidate + 2) truncation_notice 0 (length candidate + 1)
          k th (omega arith) le (omega arith) (omega arith) (notice, inl (refl, refl)),
    )

back_to_rune-lem :
    (limit : ℕ) (s : Bytes)
    → back_to_rune limit s ≤ limit
      × ((back_to_rune limit s ≡ 0)
          ⊎ (length s ≤ back_to_rune limit s)
          ⊎ (rune_start (byte_at (back_to_rune limit s) s) ≡ true))
unfolding back_to_rune
back_to_rune-lem zero s = (omega arith, inl refl)
back_to_rune-lem (suc limit) s =
    elim (Bool-cases (ltb (suc limit) (length s) && not (rune_start (byte_at (suc limit) s)))) [
      | inl inside ↦
          let (le, begins) = back_to_rune-lem limit s in rw inside (omega (arith, le), begins)
      | inr outside ↦
          rw outside (omega arith, ends (Bool-cases (ltb (suc limit) (length s))) outside)
    ]
  where
    ends :
        {b : Bool}
        → (ltb (suc limit) (length s) ≡ true) ⊎ (ltb (suc limit) (length s) ≡ false)
        → (ltb (suc limit) (length s) && not b) ≡ false
        → (suc limit ≡ 0) ⊎ (length s ≤ suc limit) ⊎ (b ≡ true)
    ends (inl within_text) h = ground (arith, within_text, h)
    ends (inr beyond) h = inr (inl (ltb→ge _ _ beyond))

-- A text cut to a number of bytes is a beginning of it of at most that length, which is empty, the
-- whole text, or ends where a character of UTF-8 begins.
pub truncate_utf8_by_bytes-lem :
    (s : Bytes) (limit : ℕ)
    → (n : ℕ) × (truncate_utf8_by_bytes s limit ≡ take n s)
      × (n ≤ limit)
      × ((n ≡ 0) ⊎ (length s ≤ n) ⊎ (rune_start (byte_at n s) ≡ true))
unfolding truncate_utf8_by_bytes
truncate_utf8_by_bytes-lem s limit = elim (Bool-cases (leb limit 0)) [
  | inl none_left ↦ rw none_left (0, refl, omega arith, inl refl)
  | inr some_left ↦ elim (Bool-cases (leb (length s) limit)) [
    | inl short_text ↦
        rw (some_left, short_text)
          (
            limit,
            sym (take_all limit s (leb→le _ _ short_text)),
            omega arith,
            inr (inl (leb→le _ _ short_text)),
          )
    | inr long_text ↦
        let (le, begins) = back_to_rune-lem limit s in
        rw (some_left, long_text) (back_to_rune limit s, refl, le, begins)
  ]
]
