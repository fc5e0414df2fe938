-- ===== src/QueryCache.antt =====
-- One entry of the query cache: what the screens of the frontend rely on of the library's `useQuery`,
-- `refetch`, `cancelQueries` and `setQueryData`.
use ai_erp.Base.{ℕ, Bool, true, false, Option, some, List, [], ◌∷◌, ◌++◌, any, map, if◌then◌else◌}
use ai_erp.Base.Lists.{remove_at}
use ai_erp.State.Denials.{Outcome, value, failed}

-- A call of the query function: the revision of its access read, and whether it still counts.
pub record Fetch : Type 0 where
  pub access_revision : ℕ
  pub live : Bool

pub record Query (A : Type 0) : Type 0 where
  pub found : Option A
  pub success : Bool
  pub fetches : List Fetch

abbrev pub dead : Fetch → Fetch
dead f = record f { live = false }

module _ {A : Type 0} where
  abbrev pub is_fetching : Query A → Bool
  is_fetching q = any (λ f. f.live) q.fetches

  -- `cancelQueries`: the calls go on, but count no more.
  unfoldable pub cancel_queries : Query A → Query A
  cancel_queries q = record q { fetches = map dead q.fetches }

  -- `refetch`: a call that still runs is cancelled.
  unfoldable pub start_fetch : ℕ → Query A → Query A
  start_fetch revision q = record q {
    fetches = map dead q.fetches ++ record { access_revision = revision; live = true } ∷ [];
  }

  -- `setQueryData`
  unfoldable pub set_query_data : A → Query A → Query A
  set_query_data v q = record q { found = some v; success = true }

  -- The data stay when a later call fails.
  abbrev pub received : Outcome A → Query A → Query A
  received (value v) q = record q { found = some v; success = true }
  received (failed e) q = record q { success = false }

  unfoldable pub end_fetch : ℕ → Fetch → Outcome A → Query A → Query A
  unfolding remove_at
  end_fetch n f outcome q =
      let r = record q { fetches = remove_at n q.fetches } in
      if f.live then received outcome r else r
