-- ===== src/Config/Memory.antt =====
-- internal/config/config.go: ParseMemoryLimit.
use docker_monitor.Config.Platform.{Platform}
use docker_monitor.Prelude.{
  Bool, List, Option, [], if◌then◌else◌, length, none, reverse, some, take, ℕ, ◌-◌, ◌^◌, ◌||◌, ◌∷◌,
}
use docker_monitor.Prelude.Bytes.{Bytes, has_prefix, is_empty, str_eq, text}
use docker_monitor.Prelude.Bytes.Space.{trim_space}
use docker_monitor.Prelude.Int.{is_negative, pos, ℤ}

-- A suffix with its factor.
pub record MemoryUnit : Type 0 where
  pub suffix : Bytes
  pub bytes : ℕ

abbrev unit_of : Bytes → ℕ → MemoryUnit
unit_of suffix bytes = record { suffix = suffix; bytes = bytes }

-- In the order of the source.
abbrev pub memory_units : List MemoryUnit
memory_units =
    unit_of (text "TiB") (2 ^ 40)
    ∷ unit_of (text "GiB") (2 ^ 30)
    ∷ unit_of (text "MiB") (2 ^ 20)
    ∷ unit_of (text "KiB") (2 ^ 10)
    ∷ unit_of (text "TB") 1_000_000_000_000
    ∷ unit_of (text "GB") 1_000_000_000
    ∷ unit_of (text "MB") 1_000_000
    ∷ unit_of (text "KB") 1000
    ∷ unit_of (text "Ti") (2 ^ 40)
    ∷ unit_of (text "Gi") (2 ^ 30)
    ∷ unit_of (text "Mi") (2 ^ 20)
    ∷ unit_of (text "Ki") (2 ^ 10)
    ∷ unit_of (text "T") (2 ^ 40)
    ∷ unit_of (text "G") (2 ^ 30)
    ∷ unit_of (text "M") (2 ^ 20)
    ∷ unit_of (text "K") (2 ^ 10)
    ∷ unit_of (text "B") 1
    ∷ []

-- strings.HasSuffix
abbrev pub has_suffix : Bytes → Bytes → Bool
has_suffix s suffix = has_prefix (reverse s) (reverse suffix)

module _ (go : Platform) where
  -- The body of the loop on the suffix that is found; none is an error.
  abbrev pub with_unit : Bytes → MemoryUnit → Option ℤ
  with_unit raw u =
      let digits = trim_space (take (length raw - length u.suffix) raw) in
      if is_empty digits then none else elim (go.parse_float digits) [
        | none ↦ none
        | some value ↦
            if go.float_negative value then none else some (go.float_scaled value u.bytes)
      ]

  abbrev pub no_unit : Bytes → Option ℤ
  no_unit raw = elim (go.parse_int raw) [
    | none ↦ none
    | some value ↦ if is_negative value then none else some value
  ]

  -- The loop over the units.
  abbrev pub by_units : Bytes → List MemoryUnit → Option ℤ
  by_units raw [] = no_unit raw
  by_units raw (u ∷ units) =
      let later = by_units raw units in
      if has_suffix (go.to_upper raw) (go.to_upper u.suffix) then with_unit raw u else later

  unfoldable pub parse_memory_limit : Bytes → Option ℤ
  unfolding trim_space is_empty str_eq has_prefix
  parse_memory_limit given =
      let raw = trim_space given in
      if is_empty raw || str_eq raw (text "0") then some (pos 0) else by_units raw memory_units
