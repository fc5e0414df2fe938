-- ===== src/Invitations/Tests.antt =====
-- Tests of the invitation codes at concrete texts.
use ai_erp.Base.{
  ℕ, ◌≡◌, refl, Bool, true, false, Option, none, some, List, [], ◌∷◌, ◌++◌, arith, ◌==◌, all,
  if◌then◌else◌, ◌≤◌, any,
}
use ai_erp.Base.Text.{codes}
use ai_erp.Invitations.{
  Url, is_symbol, grouped, join_link, normalize_code, legacy_invitation_path, submit_entry,
}
use ai_erp.ProjectStart.{utf16_length}
use ai_erp.Invitations.Shown.{is_shown, join_url}

abbrev code : List ℕ
code = codes "0123456789ABCDEF"

abbrev origin : List ℕ
origin = codes "https://erp.example"

abbrev is_colon : ℕ → Bool
is_colon c = c == b':'

-- A `URL` that reads every text with a colon as the link of the code.
abbrev url : List ℕ → Option Url
url s = if any is_colon s then some (join_url code) else none

abbrev trim : List ℕ → List ℕ
trim s = s

grouped-code : grouped code ≡ codes "0123-4567-89AB-CDEF"
unfolding grouped
grouped-code = refl

normalize_code-lower : normalize_code trim url 1 (codes "#/JOIN/0123 4567-89abcdef") ≡ some code
unfolding normalize_code
normalize_code-lower = refl

normalize_code-short : normalize_code trim url 1 (codes "0123") ≡ none
unfolding normalize_code
normalize_code-short = refl

legacy_invitation_path-hash :
    legacy_invitation_path trim url (codes "#/invitations/a_1") ≡ some (codes "/invitations/a_1")
unfolding legacy_invitation_path
legacy_invitation_path-hash = refl

shown_no_colon : (s : List ℕ) → all is_shown s ≡ true → any is_colon s ≡ false
unfolding is_symbol
shown_no_colon [] h = refl
shown_no_colon (c ∷ s) h = ground (arith, shown_no_colon s)

no_scheme : (s : List ℕ) → all is_shown s ≡ true → url s ≡ none
no_scheme s h = rw (shown_no_colon s h) refl

short : utf16_length (join_link origin code) ≤ 2048
unfolding utf16_length
short = omega arith

entered : submit_entry trim url 2 (codes "0123-4567-89ab-cdef") ≡ some (codes "/join/" ++ code)
unfolding submit_entry
entered = refl
