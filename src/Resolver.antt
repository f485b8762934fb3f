-- ===== src/Resolver.antt =====
-- channels-go/internal/resolver/resolver.go: from a short id to a contact of the address book.
pub mod Best
pub mod Order
pub mod Outcome
mod Examples
use fieldwatchai_comms_openk.Prelude.{
  ℕ, zero, suc, ◌+◌, ◌≡◌, Bool, true, false, not, ◌&&◌, ◌||◌, Option, none, some,
}
use fieldwatchai_comms_openk.Prelude.{
  List, [], ◌∷◌, ◌++◌, map, ltb, leb, ◌==◌, comparable_nat, comparable_list, if◌then◌else◌,
}
use fieldwatchai_comms_openk.Strdist.{Text, levenshtein, soundex}
use fieldwatchai_comms_openk.Policy.{ShortIdMatch}

-- `ListContactShortIDsRow`, a contact of the tenant.
pub record Row : Type 0 where
  pub id : ℕ
  pub short_id : Text

-- `Alt`
pub record Alt : Type 0 where
  pub short_id : Text
  pub contact_id : ℕ
  pub distance : ℕ

-- `Match`
pub record Match : Type 0 where
  pub short_id_match : ShortIdMatch
  pub contact_id : Option ℕ
  pub alternatives : List Alt

-- `bestDist` and `bestID`
pub record Nearest : Type 0 where
  pub distance : ℕ
  pub contact_id : Option ℕ

-- `1 << 30`
abbrev pub far : ℕ
far = 1073741824

-- `sort.SliceStable` by distance.
unfoldable pub insert : Alt → List Alt → List Alt
insert a [] = a ∷ []
insert a (b ∷ alts) =
    let rest = insert a alts in if ltb b.distance a.distance then b ∷ rest else a ∷ b ∷ alts

unfoldable pub sort : List Alt → List Alt
sort [] = []
sort (a ∷ alts) = insert a (sort alts)

-- The statements behind the loop.
unfoldable pub finish : List Alt → Nearest → Match
finish alts best =
    if best.distance == 1
    then record {
      short_id_match = ShortIdMatch.levenshtein_1;
      contact_id = best.contact_id;
      alternatives = sort alts;
    }
    else if best.distance == 2
    then record {
      short_id_match = ShortIdMatch.levenshtein_2;
      contact_id = best.contact_id;
      alternatives = sort alts;
    }
    else record {
      short_id_match = ShortIdMatch.no_match;
      contact_id = none;
      alternatives = sort alts;
    }

-- `upper` and `lower` are `strings.ToUpper` and `strings.ToLower` on one rune.
module _ (upper lower : ℕ → ℕ) (short_id : Text) where
  abbrev pub needle : Text
  needle = map lower short_id

  unfoldable pub is_exact : Row → Bool
  is_exact row = map lower row.short_id == needle

  unfoldable pub distance_to : Row → ℕ
  distance_to row = levenshtein needle (map lower row.short_id)

  unfoldable pub sounds_alike : Row → Bool
  sounds_alike row =
      not (soundex upper short_id == []) && soundex upper row.short_id == soundex upper short_id

  unfoldable pub add_alt : Row → List Alt → List Alt
  add_alt row alts =
      if leb (distance_to row) 2 || sounds_alike row
      then alts
        ++ (record { short_id = row.short_id; contact_id = row.id; distance = distance_to row }
            ∷ [])
      else alts

  unfoldable pub nearer : Row → Nearest → Nearest
  nearer row best =
      if ltb (distance_to row) best.distance
      then record { distance = distance_to row; contact_id = some row.id }
      else best

  -- The loop over the rows, and what follows it.
  unfoldable pub scan : List Row → List Alt → Nearest → Match
  scan [] alts best = finish alts best
  scan (row ∷ rows) alts best =
      let rest = scan rows (add_alt row alts) (nearer row best) in
      if is_exact row
      then record {
        short_id_match = ShortIdMatch.exact;
        contact_id = some row.id;
        alternatives = [];
      }
      else rest

  -- `Resolve`, behind a query that returns `rows`.
  unfoldable pub resolve : List Row → Match
  resolve rows = scan rows [] (record { distance = far; contact_id = none })
