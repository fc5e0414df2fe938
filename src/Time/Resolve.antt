-- ===== src/Time/Resolve.antt =====
-- `localDateTimeToUtc`: the instant that a zone shows as a local time. Instants and local times are
-- whole minutes from the epoch, local times as if they were of the meridian.
pub mod Reference
use ai_erp.Base.{
  ℕ, zero, suc, ◌+◌, ◌-◌, ◌*◌, Bool, true, false, not, ◌||◌, Option, none, some, List, [], ◌∷◌,
  ◌==◌, map, select, any, if◌then◌else◌,
}

-- What the function returns or throws.
pub data Resolved : Type 0 where
  instant : ℕ → Resolved
  malformed unknown_zone no_such_time ambiguous : Resolved

-- The hours from -36 to 36 in steps of six, each 36 later.
abbrev pub sample_hours : List ℕ
sample_hours = 0 ∷ 6 ∷ 12 ∷ 18 ∷ 24 ∷ 30 ∷ 36 ∷ 42 ∷ 48 ∷ 54 ∷ 60 ∷ 66 ∷ 72 ∷ []

abbrev pub elem : ℕ → List ℕ → Bool
elem n xs = any (λ x. x == n) xs

-- A `Set` of the numbers of a list.
unfoldable pub distinct_numbers : List ℕ → List ℕ
distinct_numbers [] = []
distinct_numbers (x ∷ xs) = let rest = distinct_numbers xs in if elem x rest then rest else x ∷ rest

-- `!matches.length`, `matches.length > 1` and `matches[0]`.
abbrev pub verdict : List ℕ → Resolved
verdict [] = no_such_time
verdict (t ∷ []) = instant t
verdict (t ∷ u ∷ ts) = ambiguous

-- `local_of` is the local time that the zone shows at an instant.
module _ (local_of : ℕ → ℕ) where
  -- An offset, as the instant that it makes of the local time: `assumed - offset`, where the offset is
  -- the local time at a sample less the sample.
  abbrev pub candidate : ℕ → ℕ → ℕ
  candidate local hours =
      let sample = local + hours * 60 - 36 * 60 in local + sample - local_of sample

  unfoldable pub candidates : ℕ → List ℕ
  unfolding distinct_numbers
  candidates local = distinct_numbers (map (λ hours. candidate local hours) sample_hours)

  -- `local` is `none` where the text is not of its form.
  unfoldable pub local_date_time_to_utc : Bool → Option ℕ → Resolved
  unfolding candidates
  local_date_time_to_utc valid_zone none = malformed
  local_date_time_to_utc valid_zone (some local) =
      if not valid_zone
      then unknown_zone
      else verdict (select (λ t. local_of t == local) (candidates local))
