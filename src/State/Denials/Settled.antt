-- ===== src/State/Denials/Settled.antt =====
-- What a failed read leaves behind.
use ai_erp.Base.{ℕ, ◌+◌, ◌≡◌, String, false, ◌||◌, arith, eq_refl, str_eq}
use ai_erp.Base.Dict.{get-put}
use ai_erp.State.{Store}
use ai_erp.State.Denials.{
  Failure, failed, is_access_error, denial_revision, has_access_denial, access_read_settled,
}

pub denied_after {ℓ} :
    (A : Type ℓ) (key : String) (revision : ℕ) (e : Failure) (s : Store)
    → has_access_denial key (access_read_settled {A = A} key revision (failed e) s)
      ≡ (is_access_error e || has_access_denial key s)
unfolding access_read_settled has_access_denial
denied_after A key revision e s =
    ground (arith, get-put key key (denial_revision key s + 1) s.denials, eq_refl key)

-- A failed `accessRead` leaves its key refused exactly when the failure is 403 or 404 or the key
-- was refused before; it refuses no other key and completes no read.
has_access_denial-access_read_settled :
    (key other : String) (revision : ℕ) (e : Failure) (s : Store)
    → str_eq key other ≡ false
    → (has_access_denial key (access_read_settled {A = ℕ} key revision (failed e) s)
        ≡ (is_access_error e || has_access_denial key s))
      × (has_access_denial other (access_read_settled {A = ℕ} key revision (failed e) s)
          ≡ has_access_denial other s)
      × ((access_read_settled {A = ℕ} key revision (failed e) s).read_revisions ≡ s.read_revisions)
unfolding access_read_settled has_access_denial
has_access_denial-access_read_settled key other revision e s ne = (
  denied_after ℕ key revision e s,
  ground (arith, get-put other key (denial_revision key s + 1) s.denials),
  ground arith,
)
