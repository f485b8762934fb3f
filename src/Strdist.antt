-- ===== src/Strdist.antt =====
-- channels-go/internal/strdist/strdist.go: edit distance and Soundex. A text is its list of runes.
pub mod Script
pub mod Rows
pub mod Metric
pub mod Code
mod Examples
use fieldwatchai_comms_openk.Prelude.{
  ℕ, zero, suc, ◌+◌, ◌-◌, ◌≡◌, Bool, true, false, not, ◌&&◌, ◌||◌,
}
use fieldwatchai_comms_openk.Prelude.{
  List, [], ◌∷◌, ◌++◌, map, arith, ltb, leb, ◌==◌, comparable_nat,
}
use fieldwatchai_comms_openk.Prelude.{if◌then◌else◌, length, take, keep}

abbrev pub Text : Type 0
Text = List ℕ

unfoldable pub min3 : ℕ → ℕ → ℕ → ℕ
min3 a b c = let a' = if ltb b a then b else a in if ltb c a' then c else a'

unfoldable pub cost : ℕ → ℕ → ℕ
cost x y = if x == y then 0 else 1

-- The inner loop from some column on: `left` is `cur[j-1]`, `diagonal` is `prev[j-1]`, and the two
-- lists are the rest of `prev` and of `rb`.
unfoldable pub cells : ℕ → ℕ → ℕ → List ℕ → Text → List ℕ
cells x left diagonal [] rb = []
cells x left diagonal (up ∷ above) [] = []
cells x left diagonal (up ∷ above) (y ∷ rb) =
    let c = min3 (up + 1) (left + 1) (diagonal + cost x y) in c ∷ cells x c up above rb

-- One round of the outer loop. Every cell of `cur` is written before it is read, so what the swap
-- left in it does not matter.
unfoldable pub next_row : ℕ → ℕ → List ℕ → Text → List ℕ
next_row i x [] rb = []
next_row i x (diagonal ∷ above) rb = i ∷ cells x i diagonal above rb

unfoldable pub rows : ℕ → List ℕ → Text → Text → List ℕ
rows i prev [] rb = prev
rows i prev (x ∷ ra) rb = rows (suc i) (next_row i x prev rb) ra rb

-- `prev[j] = j`
unfoldable pub first_row : ℕ → Text → List ℕ
first_row j [] = j ∷ []
first_row j (y ∷ rb) = j ∷ first_row (suc j) rb

-- `prev[len(rb)]`, the last cell of a row.
unfoldable pub last_cell : List ℕ → ℕ
last_cell [] = 0
last_cell (c ∷ []) = c
last_cell (c ∷ d ∷ row) = last_cell (d ∷ row)

unfoldable pub levenshtein : Text → Text → ℕ
unfolding rows next_row cells first_row last_cell min3 cost
levenshtein a b = last_cell (rows 1 (first_row 0 b) a b)

-- `code`: the Soundex digit of an upper-case letter, 0 for a vowel or Y.
unfoldable pub code : ℕ → ℕ
code r =
    if r == b'B' || r == b'F' || r == b'P' || r == b'V'
    then 1
    else if r == b'C'
        || r == b'G'
        || r == b'J'
        || r == b'K'
        || r == b'Q'
        || r == b'S'
        || r == b'X'
        || r == b'Z'
    then 2
    else if r == b'D' || r == b'T'
    then 3
    else if r == b'L'
    then 4
    else if r == b'M' || r == b'N'
    then 5
    else if r == b'R'
    then 6
    else 0

-- A round of the loop over `letters[1:]`: the next `prev`, and what the builder holds after it.
unfoldable pub next_code : ℕ → ℕ → ℕ
next_code prev r = if r == b'H' || r == b'W' then prev else code r

unfoldable pub write_code : ℕ → Text → ℕ → Text
write_code prev out r =
    let c = code r in
    if r == b'H' || r == b'W' || c == 0 || c == prev || not (ltb (length out) 4)
    then out
    else out ++ (b'0' + c) ∷ []

unfoldable pub encode : ℕ → Text → Text → Text
unfolding next_code write_code
encode prev out [] = out
encode prev out (r ∷ letters) = encode (next_code prev r) (write_code prev out r) letters

-- `for len(out) < 4 { out += "0" }`, with the rounds that a text of at least one letter needs.
unfoldable pub pad : ℕ → Text → Text
pad zero out = out
pad (suc n) out = pad n (if ltb (length out) 4 then out ++ b'0' ∷ [] else out)

abbrev pub is_letter : ℕ → Bool
is_letter r = leb b'A' r && leb r b'Z'

unfoldable pub soundex_of : Text → Text
unfolding encode pad code
soundex_of [] = []
soundex_of (first ∷ rest) = take 4 (pad 4 (encode (code first) (first ∷ []) rest))

-- `to_upper` is `strings.ToUpper` on one rune.
unfoldable pub soundex : (ℕ → ℕ) → Text → Text
unfolding soundex_of
soundex to_upper s = soundex_of (keep is_letter (map to_upper s))
