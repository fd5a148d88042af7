-- ===== src/Tests/Clock.antt =====
-- A calendar for the tests, which writes an instant as a row of marks.
use hermes_life_bridge.Prelude.{
  ℕ, zero, suc, ◌≡◌, refl, ap, true, false, Option, none, some, String, is_blank, has_prefix, codes,
  is_space,
}
use hermes_life_bridge.Calendar.{
  Stamp, Calendar, replace_offset, strip_left, strip_right, expand_zulu, normalize_stamp,
}

abbrev pub marks : ℕ → String
marks zero = "I"
marks (suc n) = String.◌∷◌ "I" (marks n)

abbrev pub count_marks : String → ℕ
count_marks String.[] = 0
count_marks (String.◌∷◌ c s) = suc (count_marks s)

abbrev pub read_marks : String → Option Stamp
read_marks String.[] = none
read_marks (String.◌∷◌ c s) = some (record { instant = count_marks s; aware = true })

pub replace_offset-marks : (n : ℕ) → replace_offset 0 (marks n) ≡ marks n
unfolding replace_offset has_prefix codes
replace_offset-marks zero = refl
replace_offset-marks (suc n) = ap (String.◌∷◌ "I") (replace_offset-marks n)

pub strip_left-marks : (n : ℕ) → strip_left (marks n) ≡ marks n
unfolding strip_left is_space
strip_left-marks zero = refl
strip_left-marks (suc n) = refl

pub strip_right-marks : (n : ℕ) → strip_right (marks n) ≡ marks n
unfolding strip_right is_space
strip_right-marks zero = refl
strip_right-marks (suc n) = ap (String.◌∷◌ "I") (strip_right-marks n)

pub expand_zulu-marks : (n : ℕ) → expand_zulu (marks n) ≡ marks n
unfolding expand_zulu
expand_zulu-marks zero = refl
expand_zulu-marks (suc n) = ap (String.◌∷◌ "I") (expand_zulu-marks n)

pub read_marks-marks : (n : ℕ) → read_marks (marks n) ≡ some (record { instant = n; aware = true })
read_marks-marks zero = refl
read_marks-marks (suc n) = ap (λ k. some (record { instant = k; aware = true })) (count n)
  where
    count : (n : ℕ) → count_marks (marks n) ≡ suc n
    count zero = refl
    count (suc n) = ap suc (count n)

pub marks_given : (n : ℕ) → is_blank (marks n) ≡ false
unfolding is_blank is_space
marks_given zero = refl
marks_given (suc n) = refl

unfoldable pub marked : Calendar
unfolding normalize_stamp
marked = record {
  from_iso = read_marks;
  to_iso = marks;
  written = λ t. rw (replace_offset-marks t) (marks_given t);
  reads_back = λ t.
      rw (replace_offset-marks t, strip_left-marks t, strip_right-marks t, expand_zulu-marks t)
        (read_marks-marks t);
}
