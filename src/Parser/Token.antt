-- ===== src/Parser/Token.antt =====
-- Trimming, and splitting off the first token.
use fieldwatchai_comms_openk.Prelude.{ℕ, ◌≡◌, ◌≢◌, refl, ap, ◌∙◌, inl, inr, true, false, [], ◌∷◌}
use fieldwatchai_comms_openk.Prelude.{◌++◌, All, arith, is_space, Bool-cases}
use fieldwatchai_comms_openk.Parser.{Text, trim_left, trim_right, trim_space, first_token}

-- A run of white space, a text without any, and a text that white space does not precede or follow.
abbrev pub IsBlank : Text → Type 0
IsBlank = All (λ c. is_space c ≡ true)

abbrev pub IsToken : Text → Type 0
IsToken = All (λ c. is_space c ≡ false)

abbrev pub IsTrimmed : Text → Type 0
IsTrimmed s = (trim_left s ≡ s) × (trim_right s ≡ s)

abbrev pub StartsBlank : Text → Type 0
StartsBlank [] = Unit {0}
StartsBlank (c ∷ s) = is_space c ≡ true

pub trim_left-blank : (w s : Text) → IsBlank w → trim_left (w ++ s) ≡ trim_left s
unfolding trim_left
trim_left-blank [] s h = refl
trim_left-blank (c ∷ w) s h = rw h.0 (trim_left-blank w s h.1)

trim_right_blank : (w : Text) → IsBlank w → trim_right w ≡ []
unfolding trim_right
trim_right_blank [] h = refl
trim_right_blank (c ∷ w) h = ground (arith, trim_right_blank w h.1)

pub trim_right-blank : (s w : Text) → IsBlank w → trim_right (s ++ w) ≡ trim_right s
unfolding trim_right
trim_right-blank [] w h = trim_right_blank w h
trim_right-blank (c ∷ s) w h = ground (arith, trim_right-blank s w h)

trim_left_blank : (w : Text) → IsBlank w → trim_left w ≡ []
unfolding trim_left
trim_left_blank [] h = refl
trim_left_blank (c ∷ w) h = rw h.0 (trim_left_blank w h.1)

trim_space-after : (s w : Text) → IsBlank w → trim_space (s ++ w) ≡ trim_space s
unfolding trim_space trim_left
trim_space-after [] w h = ap trim_right (trim_left_blank w h)
trim_space-after (c ∷ s) w h = elim (Bool-cases (is_space c)) [
  | inl e ↦ rw e (trim_space-after s w h)
  | inr e ↦ rw e (trim_right-blank (c ∷ s) w h)
]

-- White space around a text does not matter.
pub trim_space-around :
    (v s w : Text) → IsBlank v → IsBlank w → trim_space (v ++ (s ++ w)) ≡ trim_space s
unfolding trim_space
trim_space-around v s w hv hw =
    ap trim_right (trim_left-blank v (s ++ w) hv) ∙ trim_space-after s w hw

pub trim_space_trimmed : (s : Text) → IsTrimmed s → trim_space s ≡ s
unfolding trim_space
trim_space_trimmed s h = rw (h.0, h.1)

trim_right_idem : (s : Text) → trim_right (trim_right s) ≡ trim_right s
unfolding trim_right
trim_right_idem [] = refl
trim_right_idem (c ∷ s) = ground (arith, trim_right_idem s)

trim_right-head :
    (c : ℕ) (s : Text) → is_space c ≡ false → (t : Text) × (trim_right (c ∷ s) ≡ c ∷ t)
unfolding trim_right
trim_right-head c s h = (trim_right s, ground arith)

pub trim_space-IsTrimmed : (s : Text) → IsTrimmed (trim_space s)
unfolding trim_space trim_left
trim_space-IsTrimmed [] = (unfold trim_right in refl, unfold trim_right in refl)
trim_space-IsTrimmed (c ∷ s) = elim (Bool-cases (is_space c)) [
  | inl e ↦ rw e (trim_space-IsTrimmed s)
  | inr e ↦ rw e (let (t, p) = trim_right-head c s e in (rw p (rw e), trim_right_idem (c ∷ s)))
]

-- A token before a trimmed text that is not empty makes a trimmed text.
append-ne : (s t : Text) → t ≢ [] → s ++ t ≢ []
append-ne [] t ne = ne
append-ne (c ∷ s) t ne = λ e. cc

trim_right-append : (s t : Text) → t ≢ [] → trim_right t ≡ t → trim_right (s ++ t) ≡ s ++ t
unfolding trim_right
trim_right-append [] t ne h = h
trim_right-append (c ∷ s) t ne h = ground (arith, trim_right-append s t ne h, append-ne s t ne)

pub IsTrimmed-append :
    (c : ℕ) (s t : Text) → is_space c ≡ false → t ≢ [] → trim_right t ≡ t → IsTrimmed (c ∷ s ++ t)
unfolding trim_left
IsTrimmed-append c s t e ne h = (rw e, trim_right-append (c ∷ s) t ne h)

trim_right-token : (t : Text) → IsToken t → trim_right t ≡ t
unfolding trim_right
trim_right-token [] h = refl
trim_right-token (c ∷ t) h = ground (arith, trim_right-token t h.1)

pub IsTrimmed-token : (t : Text) → IsToken t → IsTrimmed t
unfolding trim_left
IsTrimmed-token [] h = (refl, unfold trim_right in refl)
IsTrimmed-token (c ∷ t) h = (rw h.0, trim_right-token (c ∷ t) h)

pub first_token_lem : (t r : Text) → IsToken t → StartsBlank r → first_token (t ++ r) ≡ (t, r)
unfolding first_token
first_token_lem [] [] ht hr = refl
first_token_lem [] (c ∷ r) ht hr = rw hr
first_token_lem (c ∷ t) r ht hr = rw (ht.0, first_token_lem t r ht.1 hr)

-- What `first_token` returns: a token, and a rest that is empty or starts with white space.
pub first_token_split :
    (s : Text)
    → (s ≡ (first_token s).0 ++ (first_token s).1)
      × IsToken (first_token s).0
      × StartsBlank (first_token s).1
unfolding first_token
first_token_split [] = (refl, tt, tt)
first_token_split (c ∷ s) = elim (Bool-cases (is_space c)) [
  | inl e ↦ rw e (refl, tt, e)
  | inr e ↦ rw e (let (p, q, r) = first_token_split s in (ap (◌∷◌ c) p, (e, q), r))
]
