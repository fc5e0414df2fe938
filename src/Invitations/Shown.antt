-- ===== src/Invitations/Shown.antt =====
-- The code in groups and the link that the dialog shows, read back by the entry.
use ai_erp.Base.{
  ℕ, suc, ◌*◌, ◌≤◌, ◌≡◌, refl, Bool, true, false, ◌||◌, Option, none, some, List, [], ◌∷◌, ◌++◌,
  arith, ◌==◌, all, ltb, length, ap, ◌∙◌,
}
use ai_erp.Base.Text.{codes, strip_prefix}
use ai_erp.ProjectStart.{utf16_length}
use ai_erp.Routes.{upper}
use ai_erp.Invitations.{
  Url, is_symbol, is_ascii, is_link_char, is_invitation_code, plain_code, compact, without_prefix,
  drop_hash, strip_any_case, join_match, normalize_code, grouped, join_link,
}

-- A character of a shown code.
abbrev pub is_shown : ℕ → Bool
is_shown c = is_symbol c || c == b'-'

symbols-shown : (s : List ℕ) → all is_symbol s ≡ true → all is_shown s ≡ true
symbols-shown [] h = refl
symbols-shown (c ∷ s) h = ground (arith, symbols-shown s)

grouped-shown : (s : List ℕ) → all is_symbol s ≡ true → all is_shown (grouped s) ≡ true
unfolding grouped
grouped-shown (a ∷ b ∷ c ∷ d ∷ e ∷ rest) h = ground (arith, grouped-shown (e ∷ rest))
grouped-shown [] h = refl
grouped-shown (a ∷ []) h = ground arith
grouped-shown (a ∷ b ∷ []) h = ground arith
grouped-shown (a ∷ b ∷ c ∷ []) h = ground arith
grouped-shown (a ∷ b ∷ c ∷ d ∷ []) h = ground arith

length-grouped : (s : List ℕ) → length (grouped s) ≤ 2 * length s
unfolding grouped
length-grouped (a ∷ b ∷ c ∷ d ∷ e ∷ rest) = omega (arith, length-grouped (e ∷ rest))
length-grouped [] = omega arith
length-grouped (a ∷ []) = omega arith
length-grouped (a ∷ b ∷ []) = omega arith
length-grouped (a ∷ b ∷ c ∷ []) = omega arith
length-grouped (a ∷ b ∷ c ∷ d ∷ []) = omega arith

shown-ascii : (s : List ℕ) → all is_shown s ≡ true → is_ascii s ≡ true
unfolding is_symbol
shown-ascii [] h = refl
shown-ascii (c ∷ s) h = ground (arith, shown-ascii s)

utf16_length-ascii : (s : List ℕ) → is_ascii s ≡ true → utf16_length s ≡ length s
unfolding utf16_length
utf16_length-ascii [] h = refl
utf16_length-ascii (c ∷ s) h = ground (arith, utf16_length-ascii s)

first_shown : (c : ℕ) → is_shown c ≡ true → ((c == b'#') ≡ false) × ((b'/' == upper c) ≡ false)
unfolding is_symbol upper
first_shown c h = ground arith

drop_hash-other : (c : ℕ) (s : List ℕ) → (c == b'#') ≡ false → drop_hash (c ∷ s) ≡ c ∷ s
drop_hash-other c s h = ground arith

strip_any_case-other :
    (p s : List ℕ) (c d : ℕ) → (c == upper d) ≡ false → strip_any_case (c ∷ p) (d ∷ s) ≡ none
unfolding strip_any_case
strip_any_case-other p s c d h = ground arith

without_prefix-none :
    (s : List ℕ) → strip_any_case (codes "/JOIN/") (drop_hash s) ≡ none → without_prefix s ≡ s
unfolding without_prefix
without_prefix-none s h = rw (h, without_prefix) refl

strip_any_case-empty : strip_any_case (codes "/JOIN/") [] ≡ none
unfolding strip_any_case
strip_any_case-empty = refl

-- The prefix of a path is not in a code.
without_prefix-shown : (s : List ℕ) → all is_shown s ≡ true → without_prefix s ≡ s
without_prefix-shown [] h = without_prefix-none [] strip_any_case-empty
without_prefix-shown (c ∷ s) h =
    let (sign, slash) = first_shown c (ground arith) in
    without_prefix-none (c ∷ s) (
      ap (strip_any_case (codes "/JOIN/")) (drop_hash-other c s sign)
      ∙ strip_any_case-other (codes "JOIN/") s b'/' c slash)

compact-symbols : (s : List ℕ) → all is_symbol s ≡ true → compact s ≡ s
unfolding compact is_symbol upper
compact-symbols [] h = refl
compact-symbols (c ∷ s) h = ground (arith, compact-symbols s)

compact-gap : (s : List ℕ) → compact (b'-' ∷ s) ≡ compact s
unfolding compact
compact-gap s = refl

compact-cons : (c : ℕ) (s t : List ℕ) → compact s ≡ compact t → compact (c ∷ s) ≡ compact (c ∷ t)
unfolding compact
compact-cons c s t h = ground arith

compact-grouped : (s : List ℕ) → compact (grouped s) ≡ compact s
unfolding grouped
compact-grouped (a ∷ b ∷ c ∷ d ∷ e ∷ rest) = compact-cons a _ _ (
    compact-cons b _ _ (
      compact-cons c _ _
        (compact-cons d _ _ (compact-gap (grouped (e ∷ rest)) ∙ compact-grouped (e ∷ rest)))))
compact-grouped [] = refl
compact-grouped (a ∷ []) = refl
compact-grouped (a ∷ b ∷ []) = refl
compact-grouped (a ∷ b ∷ c ∷ []) = refl
compact-grouped (a ∷ b ∷ c ∷ d ∷ []) = refl

plain_code-shown :
    (s c : List ℕ)
    → is_invitation_code c ≡ true
    → all is_shown s ≡ true
    → length s ≤ 64
    → compact s ≡ c
    → plain_code s ≡ some c
unfolding plain_code
plain_code-shown s c h shown short e =
    let ascii = shown-ascii s shown in
    let units = utf16_length-ascii s ascii in
    let fits : ltb 64 (length s) ≡ false = ground arith in
    rw (units, fits, ascii, without_prefix-shown s shown, e, h) refl

-- The link of a code as `URL` reads it.
abbrev pub join_url : List ℕ → Url
join_url code = record {
  same_origin = true;
  has_user = false;
  has_password = false;
  has_search = false;
  pathname = codes "/";
  hash = codes "#/join/" ++ code;
}

symbols-link : (s : List ℕ) → all is_symbol s ≡ true → all is_link_char s ≡ true
unfolding is_link_char is_symbol upper
symbols-link [] h = refl
symbols-link (c ∷ s) h = ground (arith, symbols-link s)

join_match-code :
    (c : List ℕ) → is_invitation_code c ≡ true → join_match (codes "#/join/" ++ c) ≡ some c
unfolding join_match strip_prefix
join_match-code [] h = absurd (ground arith)
join_match-code (d ∷ c) h = let link = symbols-link (d ∷ c) (ground arith) in rw link refl

-- If `trim` keeps texts of symbols and dashes, and `URL` throws on them, as they have no scheme: the
-- code in groups is read as the code. So is the link, if `URL` reads it as a link of this origin and
-- it has at most 2048 characters.
normalize_code-shown :
    (trim : List ℕ → List ℕ) (url : List ℕ → Option Url) (fuel : ℕ) (origin code : List ℕ)
    → ((s : List ℕ) → all is_shown s ≡ true → trim s ≡ s)
    → ((s : List ℕ) → all is_shown s ≡ true → url s ≡ none)
    → trim (join_link origin code) ≡ join_link origin code
    → url (join_link origin code) ≡ some (join_url code)
    → utf16_length (join_link origin code) ≤ 2048
    → is_invitation_code code ≡ true
    → (normalize_code trim url (suc fuel) (grouped code) ≡ some code)
      × (normalize_code trim url (suc (suc fuel)) (join_link origin code) ≡ some code)
unfolding normalize_code
normalize_code-shown trim url fuel origin code trims no_scheme whole here short h =
    let symbols : all is_symbol code ≡ true = ground arith in
    let long : length code ≡ 16 = ground arith in
    let shown = grouped-shown code symbols in
    let plain = symbols-shown code symbols in
    let fits : ltb 2048 (utf16_length (join_link origin code)) ≡ false = ground arith in
    let short_group : length (grouped code) ≤ 64 = omega (arith, length-grouped code) in
    let pure = compact-symbols code symbols in
    (
      rw (trims (grouped code) shown, no_scheme (grouped code) shown)
          (plain_code-shown (grouped code) code h shown short_group (compact-grouped code ∙ pure)),
      rw (whole, here, fits, join_match-code code h, trims code plain, no_scheme code plain)
          (plain_code-shown code code h plain (omega arith) pure),
    )
