-- ===== src/Resolver/Outcome.antt =====
-- What `Resolve` returns, on every branch.
use fieldwatchai_comms_openk.Prelude.{ℕ, ◌≤◌, ◌≡◌, refl, ap, ◌∙◌, inl, inr, true, false, none, some}
use fieldwatchai_comms_openk.Prelude.{
  List, [], map, find, In, In-All, All, All-map, arith, Bool-cases, Option-cases, ==_eq, ◌==◌,
  comparable_nat, comparable_list, ==_refl,
}
use fieldwatchai_comms_openk.Prelude.{find-some, find-none}
use fieldwatchai_comms_openk.Strdist.{Text}
use fieldwatchai_comms_openk.Strdist.Metric.{levenshtein_metric}
use fieldwatchai_comms_openk.Policy.{ShortIdMatch}
use fieldwatchai_comms_openk.Resolver.{
  Row, Alt, Nearest, Match, finish, sort, is_exact, distance_to, resolve, far,
}
use fieldwatchai_comms_openk.Resolver.Best.{alts_of, exact_match, nearest, scan-exact, scan-none}
use fieldwatchai_comms_openk.Resolver.Best.{IsNearest, kept, found, nearest-le, nearest-IsNearest}
use fieldwatchai_comms_openk.Resolver.Order.{IsSorted, sort-IsSorted, at, at-sort}

module _ (upper lower : ℕ → ℕ) (short_id : Text) where
  abbrev dist_to : Row → ℕ
  dist_to row = distance_to upper lower short_id row

  -- The outcomes of `Resolve`.
  pub data IsOutcome (rows : List Row) (m : Match) : Type 0 where
    -- A row has the short id, up to case.
    exactly :
        (row : Row)
        → In row rows
        → is_exact upper lower short_id row ≡ true
        → m ≡ exact_match upper lower short_id row
        → IsOutcome rows m
    -- No row is nearer than one at distance 1.
    one_off :
        (row : Row)
        → In row rows
        → distance_to upper lower short_id row ≡ 1
        → All (λ r. 1 ≤ distance_to upper lower short_id r) rows
        → m.short_id_match ≡ ShortIdMatch.levenshtein_1
        → m.contact_id ≡ some row.id
        → IsOutcome rows m
    -- No row is nearer than one at distance 2.
    two_off :
        (row : Row)
        → In row rows
        → distance_to upper lower short_id row ≡ 2
        → All (λ r. 2 ≤ distance_to upper lower short_id r) rows
        → m.short_id_match ≡ ShortIdMatch.levenshtein_2
        → m.contact_id ≡ some row.id
        → IsOutcome rows m
    -- Every row is at distance 3 or more.
    unknown :
        All (λ r. 3 ≤ distance_to upper lower short_id r) rows
        → m.short_id_match ≡ ShortIdMatch.no_match
        → m.contact_id ≡ none
        → IsOutcome rows m

  exact_of_zero :
      (row : Row)
      → distance_to upper lower short_id row ≡ 0
      → is_exact upper lower short_id row ≡ true
  unfolding distance_to is_exact
  exact_of_zero row h =
      let same = (levenshtein_metric (map lower short_id) (map lower row.short_id) []).0.0 h in
      rw same (==_refl (map lower row.short_id))

  inexact_pos :
      (row : Row)
      → is_exact upper lower short_id row ≡ false
      → 1 ≤ distance_to upper lower short_id row
  inexact_pos row h = ground (arith, exact_of_zero row)

  abbrev start : Nearest
  start = record { distance = far; contact_id = none }

  finish-IsOutcome :
      (rows : List Row) (alts : List Alt) (best : Nearest)
      → All (λ r. 1 ≤ distance_to upper lower short_id r) rows
      → All (λ r. best.distance ≤ distance_to upper lower short_id r) rows
      → IsNearest upper lower short_id rows start best
      → IsOutcome rows (finish alts best)
  unfolding finish
  finish-IsOutcome rows alts best pos le (kept e) =
      rw e (unknown (All-map _ _ rows (λ r k. omega (arith, ap (λ n. n.distance) e)) le) refl refl)
  finish-IsOutcome rows alts best pos le (found row i d c) =
      elim (Bool-cases (best.distance == 1)) [
        | inl h ↦ rw h (one_off row i (d ∙ ==_eq best.distance 1 h) pos refl c)
        | inr h ↦ elim (Bool-cases (best.distance == 2)) [
          | inl k ↦
              let two = ==_eq best.distance 2 k in
              rw (h, k) (two_off row i (d ∙ two) (All-map _ _ rows (λ r p. omega arith) le) refl c)
          | inr k ↦
              let p = In-All (λ r. 1 ≤ distance_to upper lower short_id r) row rows i pos in
              let far_off : 3 ≤ best.distance = ground (arith, h, k, p, d) in
              rw (h, k) (unknown (All-map _ _ rows (λ r q. omega arith) le) refl refl)
        ]
      ]

  -- `Resolve` finds a contact whose short id is the same up to case if there is one. Otherwise it
  -- finds a nearest contact if that is at edit distance 1 or 2, and says which; and otherwise none.
  pub resolve-IsOutcome : (rows : List Row) → IsOutcome rows (resolve upper lower short_id rows)
  unfolding resolve
  resolve-IsOutcome rows = elim (Option-cases (find (is_exact upper lower short_id) rows)) [
    | inr (row, e) ↦
        let (i, x) = find-some (is_exact upper lower short_id) rows row e in
        exactly row i x (scan-exact upper lower short_id rows [] start row e)
    | inl e ↦
        let pos = All-map _ _ rows inexact_pos (find-none (is_exact upper lower short_id) rows e) in
        rw (scan-none upper lower short_id rows [] start e) (
          finish-IsOutcome rows (alts_of upper lower short_id rows)
            (nearest upper lower short_id rows start) pos
            (nearest-le upper lower short_id rows start).1
            (nearest-IsNearest upper lower short_id rows start))
  ]

  alternatives-finish :
      (alts : List Alt) (best : Nearest) → (finish alts best).alternatives ≡ sort alts
  unfolding finish
  alternatives-finish alts best = ground arith

  -- Where no row matches exactly, the alternatives are the rows within distance 2 and those that
  -- sound alike, sorted by distance, and in the order of the address book at equal distance.
  pub resolve-alternatives :
      (rows : List Row)
      → find (is_exact upper lower short_id) rows ≡ none
      → IsSorted (resolve upper lower short_id rows).alternatives
        × ((n : ℕ)
            → at n (resolve upper lower short_id rows).alternatives
              ≡ at n (alts_of upper lower short_id rows))
  unfolding resolve
  resolve-alternatives rows e =
      rw
        (
          scan-none upper lower short_id rows [] start e,
          alternatives-finish (alts_of upper lower short_id rows)
              (nearest upper lower short_id rows start),
        )
        (
          sort-IsSorted (alts_of upper lower short_id rows),
          λ n. at-sort n (alts_of upper lower short_id rows),
        )
