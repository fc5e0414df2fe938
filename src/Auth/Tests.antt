-- ===== src/Auth/Tests.antt =====
-- A user who opens a link to an invitation, signs in, and changes the account.
use ai_erp.Base.{ℕ, String, ◌≡◌, refl, true, false, none, some, inr}
use ai_erp.Session.{is_session_context_active}
use ai_erp.Auth.{
  Window, is_invitation_hash, on_ready, on_logout, on_logged_out, auth_view, me_success, sign_in,
}
use ai_erp.Auth.Return.{come_back, on_logout-returns}

abbrev link : String
link = "#/join/0123456789ABCDEF"

abbrev guest : Window
guest = record {
  session = record {
    generation = 1;
    terminated = false;
    browser = record {
      has_window = true;
      storage_works = true;
      google_return = none;
      invitation = none;
      expired_events = 0;
    };
  };
  hash = link;
}

-- The storage holds what no page has put there.
abbrev tampered : Window
tampered = record guest {
  session = record guest.session {
    browser = record guest.session.browser { invitation = some "#/projects/p" };
  };
  hash = "#/";
}

tampered_hash : on_ready true false tampered ≡ some (record guest { hash = "#/" })
unfolding on_ready
tampered_hash = refl

abbrev saved : Window
saved = record tampered {
  session = record guest.session {
    browser = record guest.session.browser { invitation = some link };
  };
}

saved_hash : on_ready true false saved ≡ some guest
unfolding on_ready
saved_hash = refl

expired-view :
    auth_view (some (record { is_ready = true; login_url = some "/login" })) me_success true
    ≡ sign_in true "/login"
unfolding auth_view
expired-view = refl

on_logout-returns_example :
    (v u : Window) × (c : ℕ) × (on_logout guest ≡ some (v, c))
    × (is_session_context_active (some c) (on_logged_out c v).session ≡ false)
    × ((on_logged_out c v).hash ≡ link)
    × (on_ready true false (come_back "#/" (on_logged_out c v)) ≡ some u)
    × (u.hash ≡ link)
    × (u.session.browser.invitation ≡ none)
unfolding is_invitation_hash
on_logout-returns_example = on_logout-returns guest "#/" refl refl (inr refl)
