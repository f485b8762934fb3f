-- ===== src/Strdist/Code.antt =====
-- The shape of a Soundex code.
use fieldwatchai_comms_openk.Prelude.{ℕ, ◌+◌, ◌≤◌, ◌<◌, ◌≡◌, refl, [], ◌∷◌, ◌++◌, arith}
use fieldwatchai_comms_openk.Prelude.{
  length, take, keep, map, All, All-append, ltb, ◌==◌, comparable_nat, ◌⊎◌,
}
use fieldwatchai_comms_openk.Prelude.{inl, inr, length-append, Bool, false}
use fieldwatchai_comms_openk.Strdist.{
  Text, code, encode, pad, soundex_of, soundex, is_letter, next_code, write_code,
}
use fieldwatchai_comms_openk.Prelude.{◌≢◌, ap, Bool-cases, ◌||◌, not}

List-cases : (s : Text) → (s ≡ []) ⊎ (s ≢ [])
List-cases [] = inl refl
List-cases (r ∷ s) = inr (λ e. cc)

abbrev IsDigit : ℕ → Type 0
IsDigit c = (b'0' ≤ c) × (c ≤ b'6')

-- A letter and three digits.
abbrev pub IsCode : Text → Type 0
IsCode (a ∷ b ∷ c ∷ d ∷ []) = (b'A' ≤ a) × (a ≤ b'Z') × IsDigit b × IsDigit c × IsDigit d
IsCode _ = ⊥

code-le : (r : ℕ) → code r ≤ 6
unfolding code
code-le r = ground arith

-- The first letter, and at most three digits after it.
record IsPartial (first : ℕ) (out : Text) : Type 0 where
  digits : Text
  is_cons : out ≡ first ∷ digits
  are_digits : All IsDigit digits
  short : length digits ≤ 3

abbrev skips : ℕ → Text → ℕ → Bool
skips prev out r =
    r == b'H' || r == b'W' || code r == 0 || code r == prev || not (ltb (length out) 4)

skips-length : (prev r : ℕ) (out : Text) → skips prev out r ≡ false → length out < 4
skips-length prev r out h = ground arith

write_code-IsPartial :
    (prev r first : ℕ) (out : Text) → IsPartial first out → IsPartial first (write_code prev out r)
unfolding write_code
write_code-IsPartial prev r first out p = elim (Bool-cases (skips prev out r)) [
  | inl e ↦ rw e p
  | inr e ↦ rw e (record {
    digits = p.digits ++ (b'0' + code r) ∷ [];
    is_cons = ap (λ t. t ++ (b'0' + code r) ∷ []) p.is_cons;
    are_digits =
        All-append IsDigit p.digits _ p.are_digits ((omega arith, omega (arith, code-le r)), tt);
    short = omega (
      arith,
      skips-length prev r out e,
      ap length p.is_cons,
      length-append p.digits ((b'0' + code r) ∷ []),
    );
  })
]

encode-IsPartial :
    (prev first : ℕ) (out letters : Text)
    → IsPartial first out
    → IsPartial first (encode prev out letters)
unfolding encode
encode-IsPartial prev first out [] p = p
encode-IsPartial prev first out (r ∷ letters) p =
    encode-IsPartial (next_code prev r) first (write_code prev out r) letters
      (write_code-IsPartial prev r first out p)

pad-IsCode :
    (first : ℕ) (out : Text)
    → b'A' ≤ first
    → first ≤ b'Z'
    → IsPartial first out
    → IsCode (take 4 (pad 4 out))
unfolding pad
pad-IsCode first out lo hi p = rw p.is_cons (padded p.digits p.are_digits p.short)
  where
    padded : (ds : Text) → All IsDigit ds → length ds ≤ 3 → IsCode (take 4 (pad 4 (first ∷ ds)))
    padded [] a h = omega arith
    padded (b ∷ []) a h = omega arith
    padded (b ∷ c ∷ []) a h = omega arith
    padded (b ∷ c ∷ d ∷ []) a h = omega arith
    padded (b ∷ c ∷ d ∷ e ∷ ds) a h = absurd (omega arith)

keep-letters : (s : Text) → All (λ r. (b'A' ≤ r) × (r ≤ b'Z')) (keep is_letter s)
keep-letters [] = tt
keep-letters (r ∷ s) = ground (arith, keep-letters s)

soundex_of-IsCode :
    (s : Text) → All (λ r. (b'A' ≤ r) × (r ≤ b'Z')) s → s ≢ [] → IsCode (soundex_of s)
unfolding soundex_of
soundex_of-IsCode [] a h = absurd (h refl)
soundex_of-IsCode (first ∷ rest) a h = pad-IsCode first _ a.0.0 a.0.1 (
    encode-IsPartial (code first) first (first ∷ []) rest
      (record { digits = []; is_cons = refl; are_digits = tt; short = omega arith }))

-- The Soundex code of a text is empty if no upper-case letter is left of it, and otherwise an
-- upper-case letter followed by exactly three digits between 0 and 6.
pub soundex-IsCode :
    (to_upper : ℕ → ℕ) (s : Text)
    → ((keep is_letter (map to_upper s) ≡ []) × (soundex to_upper s ≡ []))
      ⊎ ((keep is_letter (map to_upper s) ≢ []) × IsCode (soundex to_upper s))
unfolding soundex
soundex-IsCode to_upper s = elim (List-cases (keep is_letter (map to_upper s))) [
  | inl e ↦ inl (e, rw (e, soundex_of))
  | inr ne ↦ inr (ne, soundex_of-IsCode _ (keep-letters (map to_upper s)) ne)
]

encode-skip :
    (h prev : ℕ) (out pre post : Text)
    → (h ≡ b'H') ⊎ (h ≡ b'W')
    → encode prev out (pre ++ h ∷ post) ≡ encode prev out (pre ++ post)
unfolding encode next_code write_code
encode-skip h prev out [] post (inl e) = rw e
encode-skip h prev out [] post (inr e) = rw e
encode-skip h prev out (r ∷ pre) post e =
    encode-skip h (next_code prev r) (write_code prev out r) pre post e

-- An H or a W behind the first letter does not change the code, wherever it stands: letters of one
-- digit on both sides of it merge as if it were not there.
soundex_of-skip :
    (first h : ℕ) (pre post : Text)
    → (h ≡ b'H') ⊎ (h ≡ b'W')
    → soundex_of (first ∷ pre ++ h ∷ post) ≡ soundex_of (first ∷ pre ++ post)
unfolding soundex_of
soundex_of-skip first h pre post e =
    ap (λ t. take 4 (pad 4 t)) (encode-skip h (code first) (first ∷ []) pre post e)
