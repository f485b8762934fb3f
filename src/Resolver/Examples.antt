-- ===== src/Resolver/Examples.antt =====
-- A run of the resolver, and the theorems at a concrete address book.
use fieldwatchai_comms_openk.Prelude.{
  ℕ, ◌≡◌, refl, some, none, [], ◌∷◌, List, codes, to_upper, to_lower, is_upper, is_lower,
}
use fieldwatchai_comms_openk.Strdist.{levenshtein, soundex}
use fieldwatchai_comms_openk.Policy.{ShortIdMatch}
use fieldwatchai_comms_openk.Resolver.{
  Row, resolve, is_exact, distance_to, sounds_alike, add_alt, nearer, scan, finish, sort, insert,
}
use fieldwatchai_comms_openk.Resolver.Best.{alts_of}
use fieldwatchai_comms_openk.Resolver.Order.{IsSorted, at}
use fieldwatchai_comms_openk.Resolver.Outcome.{IsOutcome, resolve-IsOutcome, resolve-alternatives}

abbrev book : List Row
book =
    record { id = 7; short_id = codes "HMBX" }
    ∷ record { id = 8; short_id = codes "hmc" }
    ∷ record { id = 9; short_id = codes "42" }
    ∷ []

-- "hmbx" and "hmc" are both at distance 1: the first wins, and both are alternatives.
resolve_hmb :
    ((resolve to_upper to_lower (codes "HMB") book).contact_id ≡ some 7)
    × ((resolve to_upper to_lower (codes "HMB") book).short_id_match ≡ ShortIdMatch.levenshtein_1)
    × ((resolve to_upper to_lower (codes "hmC") book).contact_id ≡ some 8)
    × ((resolve to_upper to_lower (codes "hmC") book).short_id_match ≡ ShortIdMatch.exact)
    × ((resolve to_upper to_lower (codes "nobody") book).contact_id ≡ none)
unfolding resolve scan finish sort insert is_exact distance_to sounds_alike add_alt nearer
    levenshtein soundex to_upper to_lower is_upper is_lower
resolve_hmb = (refl, refl, refl, refl, refl)

resolve-IsOutcome_example :
    IsOutcome to_upper to_lower (codes "HMB") book (resolve to_upper to_lower (codes "HMB") book)
resolve-IsOutcome_example = resolve-IsOutcome to_upper to_lower (codes "HMB") book

resolve-alternatives_example :
    IsSorted (resolve to_upper to_lower (codes "HMB") book).alternatives
    × ((n : ℕ)
        → at n (resolve to_upper to_lower (codes "HMB") book).alternatives
          ≡ at n (alts_of to_upper to_lower (codes "HMB") book))
unfolding is_exact to_lower
resolve-alternatives_example = resolve-alternatives to_upper to_lower (codes "HMB") book refl
