-- ===== src/Routes/Matching.antt =====
-- What the regular expressions of `Routes` find in the links.
use ai_erp.Base.{
  ℕ, ◌≡◌, refl, Bool, true, false, not, ◌&&◌, some, List, [], ◌∷◌, ◌++◌, arith, ◌==◌, all, length,
  map, ap, subst,
}
use ai_erp.Base.Text.{codes, is_id_char, span, text_eq, strip_prefix}
use ai_erp.Routes.{
  schedule_edit, detail, take_id, is_code_char, upper, strip_any_case, invite_token, join_code,
  project_match, project_screen, edit_match, detail_match, is_line_end,
}
use ai_erp.Routes.Links.{under_project, is_id, is_code, has_no_mark}

abbrev stops : List ℕ → Bool
stops [] = true
stops (c ∷ s) = not (is_id_char c)

span-append :
    (id rest : List ℕ)
    → all is_id_char id ≡ true
    → stops rest ≡ true
    → span is_id_char (id ++ rest) ≡ (id, rest)
unfolding span
span-append [] [] h k = refl
span-append [] (c ∷ s) h k = let no : is_id_char c ≡ false = ground arith in rw (no, span) refl
span-append (c ∷ id) rest h k =
    let yes : is_id_char c ≡ true = ground arith in
    let ih = span-append id rest (ground arith) k in rw (ih, yes, span) refl

pub take_id-append :
    (id rest : List ℕ)
    → is_id id ≡ true
    → stops rest ≡ true
    → take_id (id ++ rest) ≡ some (id, rest)
unfolding take_id
take_id-append [] rest h k = absurd (ground arith)
take_id-append (c ∷ id) rest h k =
    let split = span-append (c ∷ id) rest (ground arith) k in rw split refl

pub append-nil : (s : List ℕ) → s ++ [] ≡ s
append-nil [] = refl
append-nil (c ∷ s) = ap (λ t. c ∷ t) (append-nil s)

pub take_id-whole : (t : List ℕ) → is_id t ≡ true → take_id t ≡ some (t, [])
take_id-whole t h =
    subst (λ u. take_id u ≡ some (t, [])) (append-nil t) (take_id-append t [] h refl)

pub invite_token-link :
    (t : List ℕ) → is_id t ≡ true → invite_token (codes "/invitations/" ++ t) ≡ some t
unfolding invite_token strip_prefix
invite_token-link t h = rw (take_id-whole t h) refl

code-upper : (c : List ℕ) → all (λ d. is_code_char d && upper d == d) c ≡ true → map upper c ≡ c
code-upper [] h = refl
code-upper (d ∷ c) h =
    let same : upper d ≡ d = ground arith in rw same (ap (λ u. d ∷ u) (code-upper c (ground arith)))

code-chars :
    (c : List ℕ) → all (λ d. is_code_char d && upper d == d) c ≡ true → all is_code_char c ≡ true
code-chars [] h = refl
code-chars (d ∷ c) h = ground (arith, code-chars c)

pub join_code-link : (c : List ℕ) → is_code c ≡ true → join_code (codes "/join/" ++ c) ≡ some c
unfolding join_code strip_any_case upper
join_code-link c h =
    let letters = code-chars c (ground arith) in
    let long : length c == 16 ≡ true = ground arith in
    rw (letters, long) (ap some (code-upper c (ground arith)))

pub all-append : (p : ℕ → Bool) (s t : List ℕ) → all p (s ++ t) ≡ (all p s && all p t)
all-append p [] t = refl
all-append p (c ∷ s) t = ground (arith, all-append p s t)

-- Characters of an id are neither question marks nor line ends.
pub id-plain :
    (s : List ℕ)
    → all is_id_char s ≡ true
    → (has_no_mark s ≡ true) × (all (λ d. not (is_line_end d)) s ≡ true)
unfolding is_id_char
id-plain [] h = (refl, refl)
id-plain (c ∷ s) h = ground (arith, id-plain s)

pub project_match-link :
    (id rest : List ℕ)
    → is_id id ≡ true
    → all (λ d. not (is_line_end d)) rest ≡ true
    → project_match (under_project id (b'/' ∷ rest)) ≡ some (id, rest)
unfolding project_match strip_prefix is_id_char
project_match-link id rest h k = rw (take_id-append id (b'/' ∷ rest) h refl, k) refl

pub project_match-alone :
    (id : List ℕ) → is_id id ≡ true → project_match (under_project id []) ≡ some (id, [])
unfolding project_match strip_prefix
project_match-alone id h = rw (take_id-append id [] h refl) refl

edit-not_new : (s : List ℕ) → text_eq (s ++ codes "/edit") (codes "new") ≡ false
unfolding text_eq
edit-not_new [] = refl
edit-not_new (a ∷ []) = ground arith
edit-not_new (a ∷ b ∷ []) = ground arith
edit-not_new (a ∷ b ∷ c ∷ []) = ground arith
edit-not_new (a ∷ b ∷ c ∷ d ∷ s) = ground arith

pub project_screen-edit :
    (id s query : List ℕ)
    → is_id s ≡ true
    → project_screen id (codes "schedules/" ++ s ++ codes "/edit") query
      ≡ some (schedule_edit id s query)
unfolding project_screen edit_match detail_match strip_prefix text_eq is_id_char
project_screen-edit id s query h = rw (edit-not_new s, take_id-append s (codes "/edit") h refl) refl

pub project_screen-detail :
    (id s query : List ℕ)
    → is_id s ≡ true
    → text_eq s (codes "new") ≡ false
    → project_screen id (codes "schedules/" ++ s ++ []) query ≡ some (detail id s)
unfolding project_screen edit_match detail_match strip_prefix text_eq
project_screen-detail id s query h k = rw (append-nil s, k, take_id-whole s h) refl
