-- ===== src/Auth/Return.antt =====
-- A link to an invitation outlives a sign-in and a change of the account.
use ai_erp.Base.{ℕ, String, ◌≡◌, refl, true, false, none, some, arith, ◌⊎◌, inl, inr}
use ai_erp.Browser.{dispatch_expired}
use ai_erp.GoogleReturn.{clear_google_return_context}
use ai_erp.Session.{
  terminate_session, begin_session_boundary, capture_session, is_session_context_active,
  is_session_active,
}
use ai_erp.Auth.{
  Window, is_invitation_hash, put_invitation, restored_hash, on_ready, save_continuation,
  on_login_click, on_logout, on_logged_out,
}

-- The page after the way to the sign-in and back: another start of the program at the root.
abbrev pub come_back : String → Window → Window
come_back root w = record w { session = begin_session_boundary w.session; hash = root }

-- The session storage can be used and holds a link.
abbrev pub IsSaved : String → Window → Type 0
IsSaved link w =
    (w.session.browser.storage_works ≡ true) × (w.session.browser.invitation ≡ some link)

-- The window with the link saved, and with the link shown.
abbrev with_saved : String → Window → Window
with_saved link w = record w {
  session = record w.session { browser = record w.session.browser { invitation = some link } };
}

abbrev with_shown : String → Window → Window
with_shown link w = record w {
  session = record w.session { browser = record w.session.browser { invitation = none } };
  hash = link;
}

save_continuation-link :
    (w : Window)
    → w.session.browser.storage_works ≡ true
    → is_invitation_hash w.hash ≡ true
    → save_continuation w ≡ some (with_saved w.hash w)
unfolding save_continuation put_invitation
save_continuation-link w works link = rw (link, works) refl

restored_hash-saved :
    (link root : String)
    → is_invitation_hash link ≡ true
    → (root ≡ "") ⊎ (root ≡ "#/")
    → restored_hash (some link) root ≡ link
unfolding restored_hash
restored_hash-saved link root valid (inl e) = rw (e, valid) refl
restored_hash-saved link root valid (inr e) = rw (e, valid) refl

on_ready-IsSaved :
    (w : Window) (link root : String)
    → IsSaved link w
    → is_invitation_hash link ≡ true
    → (root ≡ "") ⊎ (root ≡ "#/")
    → on_ready true false (come_back root w) ≡ some (with_shown link (come_back root w))
unfolding on_ready put_invitation begin_session_boundary
on_ready-IsSaved w link root (works, saved) valid at_root =
    rw (works, saved, restored_hash-saved link root valid at_root) refl

-- The end of a session leaves the storage's link alone.
on_logged_out-IsSaved :
    (context : ℕ) (link : String) (w : Window)
    → IsSaved link w
    → IsSaved link (on_logged_out context w)
unfolding on_logged_out terminate_session clear_google_return_context dispatch_expired
on_logged_out-IsSaved context link w h = ground arith

on_logged_out-over :
    (w : Window)
    → is_session_context_active
        (some (capture_session w.session))
        (on_logged_out (capture_session w.session) w).session
      ≡ false
unfolding on_logged_out terminate_session is_session_context_active is_session_active
    capture_session
on_logged_out-over w = ground arith

on_logged_out-hash : (context : ℕ) (w : Window) → (on_logged_out context w).hash ≡ w.hash
unfolding on_logged_out
on_logged_out-hash context w = ground arith

-- If the session storage can be used, the page shows an invitation and the program starts at its root
-- again: a sign-in leads back to the invitation, and the storage is empty.
on_login_click-returns :
    (w : Window) (root : String)
    → w.session.browser.storage_works ≡ true
    → is_invitation_hash w.hash ≡ true
    → (root ≡ "") ⊎ (root ≡ "#/")
    → (v u : Window) × (on_login_click w ≡ some v)
      × (on_ready true false (come_back root v) ≡ some u)
      × (u.hash ≡ w.hash)
      × (u.session.browser.invitation ≡ none)
unfolding on_login_click
on_login_click-returns w root works link at_root =
    let v = with_saved w.hash w in
    (
      v,
      with_shown w.hash (come_back root v),
      save_continuation-link w works link,
      on_ready-IsSaved v w.hash root (works, refl) link at_root,
      refl,
      refl,
    )

-- So does a logout that is answered while its session is active, whose session is over then.
pub on_logout-returns :
    (w : Window) (root : String)
    → w.session.browser.storage_works ≡ true
    → is_invitation_hash w.hash ≡ true
    → (root ≡ "") ⊎ (root ≡ "#/")
    → (v u : Window) × (c : ℕ) × (on_logout w ≡ some (v, c))
      × (is_session_context_active (some c) (on_logged_out c v).session ≡ false)
      × ((on_logged_out c v).hash ≡ w.hash)
      × (on_ready true false (come_back root (on_logged_out c v)) ≡ some u)
      × (u.hash ≡ w.hash)
      × (u.session.browser.invitation ≡ none)
unfolding on_logout
on_logout-returns w root works link at_root =
    let v = with_saved w.hash w in
    let c = capture_session v.session in
    let saved = on_logged_out-IsSaved c w.hash v (works, refl) in
    (
      v,
      with_shown w.hash (come_back root (on_logged_out c v)),
      c,
      rw (save_continuation-link w works link) refl,
      on_logged_out-over v,
      on_logged_out-hash c v,
      on_ready-IsSaved (on_logged_out c v) w.hash root saved link at_root,
      refl,
      refl,
    )
