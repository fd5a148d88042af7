-- ===== src/Prelude/Texts.antt =====
-- What the source asks of Python texts: blanks, character classes, prefixes without regard to case.
use Prim.Native.Nat.{ℕ, ◌+◌}
use Prim.Native.Char.{code}
use Prim.Native.String.{String, compare}
use mathlib.Core.Bool.{Bool, true, false, ◌&&◌, ◌||◌}
use mathlib.Core.List.{List, [], ◌∷◌, map}
use text.Mathlib.Text.{is_lt, is_eq}
use hermes_life_bridge.Prelude.Tests.{leb, eqb, if◌then◌else◌}
use hermes_life_bridge.Prelude.Lists.{length}

-- The code points of a text.
unfoldable pub codes : String → List ℕ
codes String.[] = []
codes (String.◌∷◌ c s) = code c ∷ codes s

-- `str.isspace` of one code point.
unfoldable pub is_space : ℕ → Bool
is_space c =
    (leb 9 c && leb c 13)
    || (leb 28 c && leb c 32)
    || eqb c 0x85
    || eqb c 0xa0
    || eqb c 0x1680
    || (leb 0x2000 c && leb c 0x200a)
    || eqb c 0x2028
    || eqb c 0x2029
    || eqb c 0x202f
    || eqb c 0x205f
    || eqb c 0x3000

unfoldable pub every : (ℕ → Bool) → List ℕ → Bool
every p [] = true
every p (c ∷ cs) = p c && every p cs

-- `not value.strip()`
unfoldable pub is_blank : String → Bool
unfolding codes every is_space
is_blank s = every is_space (codes s)

abbrev pub is_digit : ℕ → Bool
is_digit c = leb b'0' c && leb c b'9'

abbrev pub is_letter : ℕ → Bool
is_letter c = leb b'a' c && leb c b'z' || leb b'A' c && leb c b'Z'

-- `re.fullmatch(r"[0-9a-f]{64}", s)`
unfoldable pub is_sha256_hex : String → Bool
unfolding codes every
is_sha256_hex s =
    eqb (length (codes s)) 64 && every (λ c. is_digit c || leb b'a' c && leb c b'f') (codes s)

-- `re.fullmatch(r"[A-Za-z0-9_.:-]{1,128}", s)`
unfoldable pub is_safe_token : String → Bool
unfolding codes every
is_safe_token s =
    leb 1 (length (codes s))
    && leb (length (codes s)) 128
    && every
        (λ c. is_letter c || is_digit c || eqb c b'_' || eqb c b'.' || eqb c b':' || eqb c b'-')
        (codes s)

-- The letter that a code point matches under `re.IGNORECASE`, with the four characters outside
-- ASCII that Python folds to a letter.
unfoldable pub fold_case : ℕ → ℕ
fold_case c =
    if leb b'A' c && leb c b'Z'
    then c + 32
    else if eqb c 0x17f
    then b's'
    else if eqb c 0x212a
    then b'k'
    else if eqb c 0x130 || eqb c 0x131
    then b'i'
    else c

unfoldable pub has_prefix : List ℕ → List ℕ → Bool
has_prefix [] cs = true
has_prefix (p ∷ ps) [] = false
has_prefix (p ∷ ps) (c ∷ cs) = eqb p c && has_prefix ps cs

-- `re.match(r"^(?:feishu|telegram|discord|slack|signal|sms):", s, re.IGNORECASE)`
unfoldable pub is_exact_route : String → Bool
unfolding codes fold_case has_prefix
is_exact_route s =
    let text = map fold_case (codes s) in
    has_prefix (codes "feishu:") text
    || has_prefix (codes "telegram:") text
    || has_prefix (codes "discord:") text
    || has_prefix (codes "slack:") text
    || has_prefix (codes "signal:") text
    || has_prefix (codes "sms:") text

-- The order of texts in SQLite and in Python: by code points.
abbrev pub text_lt : String → String → Bool
text_lt s t = is_lt (compare s t)

-- The order of pairs of texts, as `ORDER BY a, b` compares them.
abbrev pub pair_lt : String → String → String → String → Bool
pair_lt a b a' b' = text_lt a a' || is_eq (compare a a') && text_lt b b'
