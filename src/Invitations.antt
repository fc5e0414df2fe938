-- ===== src/Invitations.antt =====
-- frontend/src/screens/Account.tsx: the codes and links of invitations, as `InvitationEntry` reads and
-- as `ShareInvitationDialog` shows them. Texts are lists of code points.
pub mod Screens
pub mod Shown
mod Tests
use ai_erp.Base.{
  ℕ, zero, suc, Bool, true, false, not, ◌&&◌, ◌||◌, Option, none, some, List, [], ◌∷◌, ◌++◌, ltb,
  leb, ◌==◌, all, map, select, length, if◌then◌else◌,
}
use ai_erp.Base.Text.{codes, is_id_char, strip_prefix, text_eq, is_empty}
use ai_erp.ProjectStart.{utf16_length}
use ai_erp.Routes.{upper}

-- What is read of a `URL`.
pub record Url : Type 0 where
  pub same_origin : Bool
  pub has_user : Bool
  pub has_password : Bool
  pub has_search : Bool
  pub pathname : List ℕ
  pub hash : List ℕ

abbrev pub is_plain : Url → Bool
is_plain u =
    u.same_origin
    && not u.has_user
    && not u.has_password
    && not u.has_search
    && text_eq u.pathname (codes "/")

-- `[0-9A-HJKMNP-TV-Z]`
unfoldable pub is_symbol : ℕ → Bool
is_symbol c =
    (leb b'0' c && leb c b'9')
    || (leb b'A' c && leb c b'H')
    || c == b'J'
    || c == b'K'
    || c == b'M'
    || c == b'N'
    || (leb b'P' c && leb c b'T')
    || (leb b'V' c && leb c b'Z')

abbrev pub is_gap : ℕ → Bool
is_gap c = c == b' ' || c == b'-'

-- `[0-9A-HJKMNP-TV-Za-hjkmnp-tv-z -]`
unfoldable pub is_link_char : ℕ → Bool
unfolding is_symbol upper
is_link_char c = is_symbol (upper c) || is_gap c

-- `/^[0-9A-HJKMNP-TV-Z]{16}$/`
abbrev pub is_invitation_code : List ℕ → Bool
is_invitation_code s = all is_symbol s && length s == 16

abbrev pub nonempty_all : (ℕ → Bool) → List ℕ → Bool
nonempty_all p s = not (is_empty s) && all p s

-- `/^#\/join\/([...]+)$/` of the hash of a link.
unfoldable pub join_match : List ℕ → Option (List ℕ)
unfolding strip_prefix is_link_char
join_match hash = elim (strip_prefix (codes "#/join/") hash) [
  | none ↦ none
  | some rest ↦ if nonempty_all is_link_char rest then some rest else none
]

abbrev pub drop_hash : List ℕ → List ℕ
drop_hash [] = []
drop_hash (c ∷ s) = if c == b'#' then s else c ∷ s

-- `strip_prefix` of a prefix in upper case, whatever the case of the text.
unfoldable pub strip_any_case : List ℕ → List ℕ → Option (List ℕ)
unfolding upper
strip_any_case [] s = some s
strip_any_case (c ∷ p) [] = none
strip_any_case (c ∷ p) (d ∷ s) = if c == upper d then strip_any_case p s else none

-- `replace(/^#?\/join\//i, "")`
unfoldable pub without_prefix : List ℕ → List ℕ
unfolding strip_any_case
without_prefix s = elim (strip_any_case (codes "/JOIN/") (drop_hash s)) [
  | none ↦ s
  | some rest ↦ rest
]

-- `replace(/[ -]/g, "").toUpperCase()`
unfoldable pub compact : List ℕ → List ℕ
unfolding upper
compact s = map upper (select (λ c. not (is_gap c)) s)

abbrev pub is_ascii : List ℕ → Bool
is_ascii = all (λ c. leb c 127)

-- The part of `normalizeCode` behind the `try`.
unfoldable pub plain_code : List ℕ → Option (List ℕ)
unfolding compact without_prefix utf16_length is_symbol
plain_code s =
    if ltb 64 (utf16_length s) || not (is_ascii s)
    then none
    else (let code = compact (without_prefix s) in
        if is_invitation_code code then some code else none)

-- `[/]invitations[/][A-Za-z0-9_-]+$`
unfoldable pub legacy_path : List ℕ → Option (List ℕ)
unfolding strip_prefix is_id_char
legacy_path s = elim (strip_prefix (codes "/invitations/") s) [
  | none ↦ none
  | some token ↦ if nonempty_all is_id_char token then some s else none
]

-- `/^#?[/]invitations[/][A-Za-z0-9_-]+$/` of the text, without its hash sign.
abbrev pub legacy_match : List ℕ → Option (List ℕ)
legacy_match s = legacy_path (drop_hash s)

-- `/^#[/]invitations[/][A-Za-z0-9_-]+$/` of a hash, without its sign.
abbrev pub legacy_hash : List ℕ → Option (List ℕ)
legacy_hash [] = none
legacy_hash (c ∷ s) = if c == b'#' then legacy_path s else none

abbrev pub or_path : Option (List ℕ) → Option (List ℕ) → Option (List ℕ)
or_path none later = later
or_path (some path) later = some path

abbrev pub join_path : Option (List ℕ) → Option (List ℕ)
join_path none = none
join_path (some code) = some (codes "/join/" ++ code)

abbrev pub legacy_of_url : Option Url → Option (List ℕ)
legacy_of_url none = none
legacy_of_url (some u) = if is_plain u then legacy_hash u.hash else none

-- `again` is the recursive call, for the code in a hash.
abbrev pub code_of_hash : List ℕ → (List ℕ → Option (List ℕ)) → Option (List ℕ) → Option (List ℕ)
code_of_hash s again none = plain_code s
code_of_hash s again (some m) = again m

abbrev pub code_of_url : List ℕ → (List ℕ → Option (List ℕ)) → Option Url → Option (List ℕ)
code_of_url s again none = plain_code s
code_of_url s again (some u) =
    if not (is_plain u) || ltb 2048 (utf16_length s)
    then none
    else code_of_hash s again (join_match u.hash)

-- `trim` is the method of texts, and `url` is `new URL`, `none` where it throws.
module _ (trim : List ℕ → List ℕ) (url : List ℕ → Option Url) where
  -- The recursion of `normalizeCode` runs on fuel.
  unfoldable pub normalize_code : ℕ → List ℕ → Option (List ℕ)
  unfolding plain_code join_match text_eq utf16_length
  normalize_code zero value = none
  normalize_code (suc fuel) value =
      let s = trim value in code_of_url s (λ m. normalize_code fuel m) (url s)

  unfoldable pub legacy_invitation_path : List ℕ → Option (List ℕ)
  unfolding legacy_path text_eq
  legacy_invitation_path value =
      let s = trim value in or_path (legacy_match s) (legacy_of_url (url s))

  -- `onSubmit`: where the page goes, or `none` where the text is marked as invalid.
  unfoldable pub submit_entry : ℕ → List ℕ → Option (List ℕ)
  unfolding normalize_code legacy_invitation_path
  submit_entry fuel value =
      or_path (legacy_invitation_path value) (join_path (normalize_code fuel value))

-- `code.match(/.{1,4}/g)?.join("-")` of a code without line ends.
unfoldable pub grouped : List ℕ → List ℕ
grouped (a ∷ b ∷ c ∷ d ∷ e ∷ rest) = a ∷ b ∷ c ∷ d ∷ b'-' ∷ grouped (e ∷ rest)
grouped s = s

-- `${window.location.origin}/#/join/${data.code}`
abbrev pub join_link : List ℕ → List ℕ → List ℕ
join_link origin code = origin ++ codes "/#/join/" ++ code
