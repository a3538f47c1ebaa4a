-- ===== src/Store/DingTalk/Truncate/Tests.antt =====
-- A limit of 19 bytes, of which the notice takes 17: two bytes of the text are kept.
use docker_monitor.Prelude.{Bool, arith, leb, length, refl, some, suc, zero, ◌≡◌}
use docker_monitor.Prelude.Bytes.{Bytes, text}
use docker_monitor.Prelude.Bytes.Space.{trim_right_byte}
use docker_monitor.Store.DingTalk.Truncate.{
  back_to_rune, truncate_payload_string, truncate_utf8_by_bytes,
}
use docker_monitor.Store.DingTalk.Truncate.Search.{IsBest, IsThreshold, truncate-longest}

abbrev within_limit : Bytes → Bool
within_limit s = leb (length s) 19

threshold : IsThreshold within_limit (text "abcd") 3
unfolding truncate_utf8_by_bytes trim_right_byte back_to_rune
threshold zero h = refl
threshold (suc zero) h = refl
threshold (suc (suc zero)) h = refl
threshold (suc (suc (suc zero))) h = refl
threshold (suc (suc (suc (suc zero)))) h = refl
threshold (suc (suc (suc (suc (suc m))))) h = absurd (omega arith)

truncate-longest_example :
    (best : Bytes) × (truncate_payload_string within_limit (text "abcd\n") ≡ some best)
    × IsBest within_limit (text "abcd") best 3
unfolding trim_right_byte
truncate-longest_example =
    truncate-longest within_limit (text "abcd\n") 3 refl threshold (omega arith)
