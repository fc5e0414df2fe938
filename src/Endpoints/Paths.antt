-- ===== src/Endpoints/Paths.antt =====
-- Which paths the boundary of the session singles out.
use ai_erp.Base.{ℕ, ◌≡◌, arith, Bool, true, false, List}
use ai_erp.Base.Text.{codes, text_eq}
use ai_erp.Endpoints.{Endpoint, configuration, logout, path_of}

abbrev pub is_logout_call : Endpoint → Bool
is_logout_call logout = true
is_logout_call _ = false

abbrev pub is_configuration_call : Endpoint → Bool
is_configuration_call configuration = true
is_configuration_call _ = false

-- Whatever the encoding of texts and numbers: the path that is taken as the logout is that of the
-- logout alone, and the path that is read without a session that of the configuration alone.
pub path_of-singled_out :
    (segment : List ℕ → List ℕ) (print : ℕ → List ℕ) (e : Endpoint)
    → (text_eq (path_of segment print e) (codes "/api/v1/logout") ≡ is_logout_call e)
      × (text_eq (path_of segment print e) (codes "/api/v1/system/configuration")
          ≡ is_configuration_call e)
unfolding path_of text_eq
path_of-singled_out segment print e = ground arith
