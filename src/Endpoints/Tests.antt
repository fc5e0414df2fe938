-- ===== src/Endpoints/Tests.antt =====
-- The paths of a few calls.
use ai_erp.Base.{ℕ, ◌≡◌, refl, List}
use ai_erp.Base.Text.{codes}
use ai_erp.Endpoints.{edit, path_of}

abbrev as_is : List ℕ → List ℕ
as_is s = s

abbrev one_digit : ℕ → List ℕ
one_digit n = codes "7"

edit_path :
    path_of as_is one_digit (edit (codes "p") (codes "s")) ≡ codes "/api/v1/projects/p/schedules/s"
unfolding path_of
edit_path = refl
