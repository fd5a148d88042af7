-- ===== src/Calendar.antt =====
-- The timestamps that operation_store.py and retry_engine.py read and write. `datetime` itself is
-- a parameter: what `fromisoformat` reads and what `isoformat` writes.
use Prim.Native.Char.{code}
use Prim.Native.String.{◌++◌ as append}
use hermes_life_bridge.Prelude.{
  ℕ, zero, suc, ◌≡◌, Bool, true, false, ◌&&◌, Option, none, some, String, ◌==◌, eqb, if◌then◌else◌,
  is_space, is_blank, codes, has_prefix, ◌∷◌,
}
use hermes_life_bridge.Errors.{Fault, Result, ok, err, value_error, timestamp_error}

-- A `datetime`: the instant in microseconds of UTC, counted from the first that `datetime` has,
-- and whether it carries a time zone.
pub record Stamp : Type 0 where
  pub instant : ℕ
  pub aware : Bool

-- `value.replace("Z", "+00:00")`
unfoldable pub replace_zulu : String → String
replace_zulu String.[] = ""
replace_zulu (String.◌∷◌ c s) =
    let rest = replace_zulu s in
    if eqb (code c) b'Z' then append "+00:00" rest else String.◌∷◌ c rest

-- `value.replace("+00:00", "Z")`; the number counts the characters of a match still to be dropped.
unfoldable pub replace_offset : ℕ → String → String
unfolding has_prefix codes
replace_offset skip String.[] = ""
replace_offset (suc skip) (String.◌∷◌ c s) = replace_offset skip s
replace_offset zero (String.◌∷◌ c s) = elim (has_prefix (codes "+00:00") (code c ∷ codes s)) [
  | true ↦ append "Z" (replace_offset 5 s)
  | false ↦ String.◌∷◌ c (replace_offset 0 s)
]

-- `value.lstrip()` and `value.rstrip()`
unfoldable pub strip_left : String → String
strip_left String.[] = ""
strip_left (String.◌∷◌ c s) =
    let rest = strip_left s in if is_space (code c) then rest else String.◌∷◌ c s

unfoldable pub strip_right : String → String
strip_right String.[] = ""
strip_right (String.◌∷◌ c s) =
    let rest = strip_right s in if is_space (code c) && rest == "" then "" else String.◌∷◌ c rest

-- `f"{raw[:-1]}+00:00"` where `raw` ends with "Z"
unfoldable pub expand_zulu : String → String
expand_zulu String.[] = ""
expand_zulu (String.◌∷◌ c s) =
    let rest = expand_zulu s in if eqb (code c) b'Z' && s == "" then "+00:00" else String.◌∷◌ c rest

unfoldable pub normalize_stamp : String → String
unfolding strip_left strip_right expand_zulu
normalize_stamp value = expand_zulu (strip_right (strip_left value))

-- `datetime`, and what is relied on: a written instant is not blank, and reads back as itself.
pub record Calendar : Type 0 where
  pub from_iso : String → Option Stamp
  pub to_iso : ℕ → String
  pub written : (t : ℕ) → is_blank (replace_offset 0 (to_iso t)) ≡ false
  pub reads_back :
      (t : ℕ)
      → from_iso (normalize_stamp (replace_offset 0 (to_iso t)))
        ≡ some (record { instant = t; aware = true })

module _ (calendar : Calendar) where
  open calendar use {from_iso, to_iso, written, reads_back}

  abbrev aware_or : Fault → Option Stamp → Fault → Result ℕ
  aware_or unreadable none naive = err unreadable
  aware_or unreadable (some s) naive = if s.aware then ok s.instant else err naive

  -- RetryEngine's `_parse_timestamp`
  unfoldable pub parse_timestamp : String → Result ℕ
  parse_timestamp value =
      if is_blank value
      then err (timestamp_error "timestamp_required")
      else aware_or (timestamp_error "timestamp_must_be_iso8601") (from_iso (normalize_stamp value))
          (timestamp_error "timestamp_must_be_timezone_aware")

  -- RetryEngine's `_format_timestamp`
  unfoldable pub format_timestamp : ℕ → String
  format_timestamp t = replace_offset 0 (to_iso t)

  -- OperationStore's `_parse_utc`
  unfoldable pub parse_utc : String → Result ℕ
  unfolding replace_zulu
  parse_utc value =
      aware_or (value_error "operation_timestamp_invalid") (from_iso (replace_zulu value))
        (value_error "operation_timestamp_must_be_timezone_aware")

  pub parse_timestamp-format_timestamp : (t : ℕ) → parse_timestamp (format_timestamp t) ≡ ok t
  unfolding parse_timestamp format_timestamp
  parse_timestamp-format_timestamp t = rw (written t, reads_back t)

  pub format_timestamp_given : (t : ℕ) → is_blank (format_timestamp t) ≡ false
  unfolding format_timestamp
  format_timestamp_given t = written t
