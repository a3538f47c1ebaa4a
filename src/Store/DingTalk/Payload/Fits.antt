-- ===== src/Store/DingTalk/Payload/Fits.antt =====
-- internal/store/dingtalk_store.go: the size of what marshalDingTalkPayload returns.
use mathlib.Core.Path.{subst}
use docker_monitor.Prelude.{
  Bool, Bool-cases, ap, inl, inr, leb, leb→le, length, refl, some, suc, true, zero, ℕ, ◌+◌, ◌-◌,
  ◌/◌, ◌∙◌, ◌≡◌, ◌≢◌, ◌≤◌, ◌⊎◌,
}
use docker_monitor.Prelude.Bytes.{Bytes}
use docker_monitor.Prelude.Bytes.Space.{trim_right_byte}
use docker_monitor.Store.DingTalk.Payload.{
  MsgType, Payload, body, is_small, markdown_message, marshal_payload, max_payload_bytes,
  other_message, put_back, text_message, truncate_by_type, truncate_payload, with_content,
  with_markdown,
}
use docker_monitor.Store.DingTalk.Truncate.{
  search, truncate_payload_string, truncate_utf8_by_bytes, truncated_at, truncation_notice,
}

-- The text that truncateDingTalkPayload cuts.
abbrev pub long_text : MsgType → Payload → Bytes
long_text text_message payload = payload.text_content
long_text m payload = payload.markdown_text

abbrev pub with_text : MsgType → Payload → Bytes → Payload
with_text markdown_message payload content = with_markdown payload content
with_text text_message payload content = with_content payload content
with_text other_message payload content = payload

module _ (fits : Bytes → Bool) where
  -- A text is cut after some number of bytes, and fits.
  abbrev pub IsCut : Bytes → Bytes → Type 0
  IsCut candidate best = (fits best ≡ true) × (n : ℕ) × (best ≡ truncated_at fits candidate n)

  search-IsCut :
      (fuel : ℕ) (candidate best : Bytes) (low top : ℕ)
      → IsCut candidate best
      → IsCut candidate (search fits fuel candidate best low top)
  unfolding search
  search-IsCut zero candidate best low top h = h
  search-IsCut (suc fuel) candidate best low top h =
      let mid = (low + top - 1) / 2 in
      elim (Bool-cases (leb top low)) [
        | inl over ↦ rw over h
        | inr going ↦ elim (Bool-cases (fits (truncated_at fits candidate mid))) [
          | inl small ↦
              rw (going, small)
                (search-IsCut fuel candidate (truncated_at fits candidate mid) (mid + 1) top
                  (small, mid, refl))
          | inr large ↦ rw (going, large) (search-IsCut fuel candidate best low mid h)
        ]
      ]

  truncate-IsCut :
      (content : Bytes)
      → fits truncation_notice ≡ true
      → (best : Bytes) × (truncate_payload_string fits content ≡ some best)
        × IsCut (trim_right_byte b'\n' content) best
  unfolding truncate_payload_string truncate_utf8_by_bytes trim_right_byte
  truncate-IsCut content notice =
      let candidate = trim_right_byte b'\n' content in
      rw notice (
        search fits (length candidate + 2) candidate truncation_notice 0 (length candidate + 1),
        refl,
        search-IsCut (length candidate + 2) candidate truncation_notice 0 (length candidate + 1)
            (notice, 0, refl),
      )

-- The payload with its text cut after n bytes.
abbrev pub cut_at : (Payload → Bytes) → MsgType → Payload → ℕ → Payload
cut_at marshal m payload n = with_text m payload (
    truncated_at (λ content. is_small marshal (with_text m payload content))
      (trim_right_byte b'\n' (long_text m payload)) n)

truncate_by_type-cut :
    (marshal : Payload → Bytes) (m : MsgType) (payload : Payload)
    → m ≢ other_message
    → is_small marshal (with_text m payload truncation_notice) ≡ true
    → (n : ℕ) × (truncate_by_type marshal m payload ≡ some (cut_at marshal m payload n))
      × (is_small marshal (cut_at marshal m payload n) ≡ true)
unfolding truncate_payload_string
truncate_by_type-cut marshal markdown_message payload known notice =
    let fits : Bytes → Bool = λ content. is_small marshal (with_markdown payload content) in
    let (best, found_best, (small, n, e)) = truncate-IsCut fits payload.markdown_text notice in
    (
      n,
      ap (put_back marshal (with_markdown payload)) found_best
          ∙ ap (λ b. some (with_markdown payload b)) e,
      subst (λ b. fits b ≡ true) e small,
    )
truncate_by_type-cut marshal text_message payload known notice =
    let fits : Bytes → Bool = λ content. is_small marshal (with_content payload content) in
    let (best, found_best, (small, n, e)) = truncate-IsCut fits payload.text_content notice in
    (
      n,
      ap (put_back marshal (with_content payload)) found_best
          ∙ ap (λ b. some (with_content payload b)) e,
      subst (λ b. fits b ≡ true) e small,
    )
truncate_by_type-cut marshal other_message payload known notice = absurd (known refl)

-- Where the payload would fit with nothing but the notice as its text, a payload of one of the two types is
-- sent within the limit: as it is, or else with its text cut after some number of bytes and the notice
-- behind it.
pub marshal_payload-fits :
    (marshal : Payload → Bytes) (payload : Payload)
    → payload.msg_type ≢ other_message
    → is_small marshal (with_text payload.msg_type payload truncation_notice) ≡ true
    → (sent : Payload) × (marshal_payload marshal payload ≡ body (marshal sent))
      × (length (marshal sent) ≤ max_payload_bytes)
      × ((sent ≡ payload) ⊎ ((n : ℕ) × (sent ≡ cut_at marshal payload.msg_type payload n)))
unfolding marshal_payload truncate_payload
marshal_payload-fits marshal payload known notice = elim (Bool-cases (is_small marshal payload)) [
  | inl small ↦ rw small (payload, refl, leb→le _ _ small, inl refl)
  | inr large ↦
      let (n, cut, small) = truncate_by_type-cut marshal payload.msg_type payload known notice in
      rw (large, cut, small)
        (cut_at marshal payload.msg_type payload n, refl, leb→le _ _ small, inr (n, refl))
]
