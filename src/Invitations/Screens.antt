-- ===== src/Invitations/Screens.antt =====
-- Every text that the entry accepts leads to the screen of an invitation.
use ai_erp.Base.{
  ℕ, zero, suc, ◌≡◌, refl, true, not, ◌&&◌, ◌||◌, Option, none, some, List, [], ◌∷◌, ◌++◌, arith,
  ◌==◌, ◌⊎◌, inl, inr, all, Option-cases, Bool-cases, sym, ltb,
}
use ai_erp.Base.Text.{codes, strip_prefix}
use ai_erp.ProjectStart.{utf16_length}
use ai_erp.Routes.{invite, join, screen_of, is_code_char, upper}
use ai_erp.Routes.Links.{path_of, has_link, is_id, is_code}
use ai_erp.Routes.RoundTrip.{screen_of-path_of}
use ai_erp.Invitations.{
  Url, is_symbol, is_invitation_code, plain_code, join_match, legacy_path, legacy_match,
  legacy_hash, drop_hash, normalize_code, legacy_invitation_path, submit_entry, is_plain,
  code_of_hash, code_of_url, legacy_of_url, or_path, join_path,
}

pub symbols-code :
    (s : List ℕ) → all is_symbol s ≡ true → all (λ d. is_code_char d && upper d == d) s ≡ true
unfolding is_symbol is_code_char upper
symbols-code [] h = refl
symbols-code (c ∷ s) h = ground (arith, symbols-code s)

none-some : {A : Type 0} (a : A) → none ≡ some a → ⊥
none-some a h = cc

some-path : (s t : List ℕ) → some s ≡ some t → s ≡ t
some-path s t h = cc

-- A code that the entry finds is one.
plain_code-is_code : (s c : List ℕ) → plain_code s ≡ some c → is_invitation_code c ≡ true
unfolding plain_code
plain_code-is_code s c h = ground arith

module _ (s c : List ℕ) (again : List ℕ → Option (List ℕ))
    (found : (m : List ℕ) → again m ≡ some c → is_invitation_code c ≡ true) where
  code_of_hash-is_code :
      (o : Option (List ℕ)) → code_of_hash s again o ≡ some c → is_invitation_code c ≡ true
  code_of_hash-is_code none h = plain_code-is_code s c h
  code_of_hash-is_code (some m) h = found m h

  code_of_url-is_code :
      (o : Option Url) → code_of_url s again o ≡ some c → is_invitation_code c ≡ true
  code_of_url-is_code none h = plain_code-is_code s c h
  code_of_url-is_code (some u) h =
      elim (Bool-cases (not (is_plain u) || ltb 2048 (utf16_length s))) [
        | inl bad ↦ absurd (none-some c (rw bad at h))
        | inr good ↦ code_of_hash-is_code (join_match u.hash) (rw good at h)
      ]

normalize_code-is_code :
    (trim : List ℕ → List ℕ) (url : List ℕ → Option Url) (fuel : ℕ) (value c : List ℕ)
    → normalize_code trim url fuel value ≡ some c
    → is_invitation_code c ≡ true
unfolding normalize_code
normalize_code-is_code trim url zero value c h = absurd (none-some c h)
normalize_code-is_code trim url (suc fuel) value c h =
    code_of_url-is_code (trim value) c (λ m. normalize_code trim url fuel m)
      (λ m e. normalize_code-is_code trim url fuel m c e) (url (trim value)) h

pub strip_prefix-append : (p s t : List ℕ) → strip_prefix p s ≡ some t → s ≡ p ++ t
unfolding strip_prefix
strip_prefix-append [] s t h = ground arith
strip_prefix-append (c ∷ p) [] t h = absurd (ground arith)
strip_prefix-append (c ∷ p) (d ∷ s) t h = ground (arith, strip_prefix-append p s t)

-- A path of an older invitation, with its token.
abbrev IsLegacy : List ℕ → Type 0
IsLegacy path = (t : List ℕ) × (path ≡ codes "/invitations/" ++ t) × (is_id t ≡ true)

legacy_path-IsLegacy : (s path : List ℕ) → legacy_path s ≡ some path → IsLegacy path
unfolding legacy_path
legacy_path-IsLegacy s path h = elim (Option-cases (strip_prefix (codes "/invitations/") s)) [
  | inl e ↦ absurd (ground arith)
  | inr (t, e) ↦
      let whole = strip_prefix-append (codes "/invitations/") s t e in
      (t, ground arith, ground arith)
]

legacy_hash-IsLegacy : (s path : List ℕ) → legacy_hash s ≡ some path → IsLegacy path
legacy_hash-IsLegacy [] path h = absurd (ground arith)
legacy_hash-IsLegacy (c ∷ s) path h = legacy_path-IsLegacy s path (ground arith)

legacy_of_url-IsLegacy :
    (o : Option Url) (path : List ℕ) → legacy_of_url o ≡ some path → IsLegacy path
legacy_of_url-IsLegacy none path h = absurd (none-some path h)
legacy_of_url-IsLegacy (some u) path h = elim (Bool-cases (is_plain u)) [
  | inl plain ↦ legacy_hash-IsLegacy u.hash path (rw plain at h)
  | inr bad ↦ absurd (none-some path (rw bad at h))
]

or_path-cases :
    (a b : Option (List ℕ)) (path : List ℕ)
    → or_path a b ≡ some path
    → (a ≡ some path) ⊎ (b ≡ some path)
or_path-cases none b path h = inr h
or_path-cases (some p) b path h = inl h

legacy_invitation_path-IsLegacy :
    (trim : List ℕ → List ℕ) (url : List ℕ → Option Url) (value path : List ℕ)
    → legacy_invitation_path trim url value ≡ some path
    → IsLegacy path
unfolding legacy_invitation_path
legacy_invitation_path-IsLegacy trim url value path h =
    let s = trim value in
    elim (or_path-cases (legacy_match s) (legacy_of_url (url s)) path h) [
      | inl e ↦ legacy_path-IsLegacy (drop_hash s) path e
      | inr e ↦ legacy_of_url-IsLegacy (url s) path e
    ]

-- Where the entry goes: the path of a code or of a token.
pub data Goes (path : List ℕ) : Type 0 where
  to_join : (c : List ℕ) → screen_of path [] ≡ join c → is_invitation_code c ≡ true → Goes path
  to_invite : (t : List ℕ) → screen_of path [] ≡ invite t → Goes path

legacy-screen : (path : List ℕ) → IsLegacy path → Goes path
unfolding has_link path_of
legacy-screen path (t, e, valid) = to_invite t (rw e (screen_of-path_of (invite t) valid))

code-screen :
    (c path : List ℕ) → is_invitation_code c ≡ true → path ≡ codes "/join/" ++ c → Goes path
unfolding has_link path_of
code-screen c path h e =
    let letters = symbols-code c (ground arith) in
    let valid : is_code c ≡ true = ground arith in
    to_join c (rw e (screen_of-path_of (join c) valid)) h

-- Whatever the user enters, and whatever `trim` and `URL` answer: if the entry goes to a path, the
-- screen of that path is the invitation of a token, or that of a code of sixteen symbols.
submit_entry-screen :
    (trim : List ℕ → List ℕ) (url : List ℕ → Option Url) (fuel : ℕ) (value path : List ℕ)
    → submit_entry trim url fuel value ≡ some path
    → Goes path
unfolding submit_entry
submit_entry-screen trim url fuel value path h =
    elim (or_path-cases (legacy_invitation_path trim url value)
      (join_path (normalize_code trim url fuel value)) path h) [
        | inl e ↦ legacy-screen path (legacy_invitation_path-IsLegacy trim url value path e)
        | inr e ↦ elim (Option-cases (normalize_code trim url fuel value)) [
          | inl nothing ↦ absurd (none-some path (rw nothing at e))
          | inr (c, there) ↦
              code-screen c path (normalize_code-is_code trim url fuel value c there)
                (sym (some-path _ path (rw there at e)))
        ]
      ]
