-- ===== src/Resolver/Best.antt =====
-- The loop of `Resolve` finds an exact row, or else the nearest row and the alternatives.
use fieldwatchai_comms_openk.Prelude.{
  ℕ, ◌≤◌, ◌≡◌, refl, sym, ap, ◌∙◌, ◌⊎◌, inl, inr, Bool, none, some,
}
use fieldwatchai_comms_openk.Prelude.{
  List, [], ◌∷◌, ◌++◌, map, find, In, All, arith, Bool-cases, leb, ◌||◌,
}
use fieldwatchai_comms_openk.Prelude.{append_assoc, append-nil, keep}
use fieldwatchai_comms_openk.Strdist.{Text}
use fieldwatchai_comms_openk.Resolver.{
  Row, Alt, Nearest, Match, scan, finish, is_exact, distance_to, sounds_alike, add_alt, nearer,
}
use fieldwatchai_comms_openk.Policy.{ShortIdMatch}

module _ (upper lower : ℕ → ℕ) (short_id : Text) where
  unfoldable pub is_alt : Row → Bool
  is_alt row = leb (distance_to upper lower short_id row) 2 || sounds_alike upper lower short_id row

  abbrev pub to_alt : Row → Alt
  to_alt row = record {
    short_id = row.short_id;
    contact_id = row.id;
    distance = distance_to upper lower short_id row;
  }

  -- The rows that become alternatives, in the order of the address book.
  abbrev pub alts_of : List Row → List Alt
  alts_of rows = map to_alt (keep is_alt rows)

  unfoldable pub nearest : List Row → Nearest → Nearest
  nearest [] best = best
  nearest (row ∷ rows) best = nearest rows (nearer upper lower short_id row best)

  abbrev pub exact_match : Row → Match
  exact_match row = record {
    short_id_match = ShortIdMatch.exact;
    contact_id = some row.id;
    alternatives = [];
  }

  pub scan-exact :
      (rows : List Row) (alts : List Alt) (best : Nearest) (row : Row)
      → find (is_exact upper lower short_id) rows ≡ some row
      → scan upper lower short_id rows alts best ≡ exact_match row
  unfolding scan
  scan-exact [] alts best row e = cc
  scan-exact (r ∷ rows) alts best row e = elim (Bool-cases (is_exact upper lower short_id r)) [
    | inl h ↦ let same : r ≡ row = ground (arith, h, e) in rw h (ap exact_match same)
    | inr h ↦ rw h (
        scan-exact rows (add_alt upper lower short_id r alts) (nearer upper lower short_id r best)
          row (ground (arith, h, e)))
  ]

  add_alt-append :
      (row : Row) (rows : List Row) (alts : List Alt)
      → add_alt upper lower short_id row alts ++ alts_of rows ≡ alts ++ alts_of (row ∷ rows)
  unfolding add_alt is_alt
  add_alt-append row rows alts = ground (arith, append_assoc alts (to_alt row ∷ []) (alts_of rows))

  pub scan-none :
      (rows : List Row) (alts : List Alt) (best : Nearest)
      → find (is_exact upper lower short_id) rows ≡ none
      → scan upper lower short_id rows alts best ≡ finish (alts ++ alts_of rows) (nearest rows best)
  unfolding scan nearest
  scan-none [] alts best e = rw append-nil
  scan-none (r ∷ rows) alts best e = elim (Bool-cases (is_exact upper lower short_id r)) [
    | inl h ↦ absurd (ground (arith, h, e))
    | inr h ↦
        rw (h, ← add_alt-append r rows alts)
          (scan-none rows (add_alt upper lower short_id r alts) (nearer upper lower short_id r best)
            (ground (arith, h, e)))
  ]

  -- The nearest row of a list, or what was nearest before it.
  pub data IsNearest (rows : List Row) (before after : Nearest) : Type 0 where
    kept : after ≡ before → IsNearest rows before after
    found :
        (row : Row)
        → In row rows
        → distance_to upper lower short_id row ≡ after.distance
        → after.contact_id ≡ some row.id
        → IsNearest rows before after

  nearer-le :
      (row : Row) (best : Nearest)
      → ((nearer upper lower short_id row best).distance ≤ best.distance)
        × ((nearer upper lower short_id row best).distance ≤ distance_to upper lower short_id row)
  unfolding nearer
  nearer-le row best = ground arith

  nearer-cases :
      (row : Row) (best : Nearest)
      → (nearer upper lower short_id row best ≡ best)
        ⊎ ((distance_to upper lower short_id row ≡ (nearer upper lower short_id row best).distance)
            × ((nearer upper lower short_id row best).contact_id ≡ some row.id))
  unfolding nearer
  nearer-cases row best = ground arith

  pub nearest-le :
      (rows : List Row) (best : Nearest)
      → ((nearest rows best).distance ≤ best.distance)
        × All (λ row. (nearest rows best).distance ≤ distance_to upper lower short_id row) rows
  unfolding nearest
  nearest-le [] best = (omega arith, tt)
  nearest-le (row ∷ rows) best =
      let (le, each) = nearest-le rows (nearer upper lower short_id row best) in
      let here = nearer-le row best in (omega arith, (omega arith, each))

  pub nearest-IsNearest :
      (rows : List Row) (best : Nearest) → IsNearest rows best (nearest rows best)
  unfolding nearest
  nearest-IsNearest [] best = kept refl
  nearest-IsNearest (row ∷ rows) best =
      step (nearest-IsNearest rows (nearer upper lower short_id row best)) (nearer-cases row best)
    where
      step :
          IsNearest rows
            (nearer upper lower short_id row best)
            (nearest rows (nearer upper lower short_id row best))
          → (nearer upper lower short_id row best ≡ best)
            ⊎ ((distance_to upper lower short_id row
                  ≡ (nearer upper lower short_id row best).distance)
                × ((nearer upper lower short_id row best).contact_id ≡ some row.id))
          → IsNearest (row ∷ rows) best (nearest rows (nearer upper lower short_id row best))
      step (found r i d c) _ = found r (inr i) d c
      step (kept e) (inl same) = kept (e ∙ same)
      step (kept e) (inr (d, c)) =
          found row (inl refl) (d ∙ ap (λ n. n.distance) (sym e)) (ap (λ n. n.contact_id) e ∙ c)
