-- ===== src/Auth/Links.antt =====
-- The links that are kept during the sign-in lead to an invitation.
use ai_erp.Base.{
  ℕ, String, ◌≡◌, refl, Bool, true, ◌||◌, Option, none, some, List, [], ◌∷◌, ◌++◌, arith, ◌⊎◌, inl,
  inr, or_else, sym, ap,
}
use ai_erp.Base.Text.{codes, is_id_char, strip_prefix}
use ai_erp.Routes.{invite, join, route_of}
use ai_erp.Routes.Links.{path_of, has_link, link_of, is_id, is_code}
use ai_erp.Routes.RoundTrip.{route_of-link_of}
use ai_erp.Invitations.{is_invitation_code, nonempty_all}
use ai_erp.Invitations.Screens.{strip_prefix-append, symbols-code}
use ai_erp.Auth.{Window, matches, is_invitation_hash, put_invitation, restored_hash, on_ready}

-- A hash that shows an invitation.
pub data Invites (hash : String) : Type 0 where
  shows_join :
      (c : List ℕ) → route_of (codes hash) ≡ join c → is_invitation_code c ≡ true → Invites hash
  shows_invite : (t : List ℕ) → route_of (codes hash) ≡ invite t → Invites hash

append-[] : (s : List ℕ) → s ++ [] ≡ s
append-[] [] = refl
append-[] (c ∷ s) = ap (λ t. c ∷ t) (append-[] s)

token-Invites :
    (hash : String) (t : List ℕ)
    → is_id t ≡ true
    → codes hash ≡ codes "#/invitations/" ++ t
    → Invites hash
unfolding has_link path_of
token-Invites hash t valid e =
    let linked : link_of (invite t) ≡ codes "#/invitations/" ++ t =
      append-[] (codes "#/invitations/" ++ t) in
    shows_invite t (rw (e, sym linked) (route_of-link_of (invite t) valid))

code-Invites :
    (hash : String) (c : List ℕ)
    → is_invitation_code c ≡ true
    → codes hash ≡ codes "#/join/" ++ c
    → Invites hash
unfolding has_link path_of
code-Invites hash c valid e =
    let linked : link_of (join c) ≡ codes "#/join/" ++ c = append-[] (codes "#/join/" ++ c) in
    let letters = symbols-code c (ground arith) in
    let has : is_code c ≡ true = ground arith in
    shows_join c (rw (e, sym linked) (route_of-link_of (join c) has)) valid

matches-some :
    (p : List ℕ → Bool) (o : Option (List ℕ))
    → matches p o ≡ true
    → (s : List ℕ) × (o ≡ some s) × (p s ≡ true)
matches-some p none h = absurd (ground arith)
matches-some p (some s) h = (s, refl, h)

or-cases : (a b : Bool) → (a || b) ≡ true → (a ≡ true) ⊎ (b ≡ true)
or-cases a b h = ground arith

pub is_invitation_hash-Invites : (hash : String) → is_invitation_hash hash ≡ true → Invites hash
unfolding is_invitation_hash
is_invitation_hash-Invites hash h =
    elim (or-cases
      (matches (nonempty_all is_id_char) (strip_prefix (codes "#/invitations/") (codes hash)))
      (matches is_invitation_code (strip_prefix (codes "#/join/") (codes hash))) h) [
        | inl token ↦
            let (t, e, valid) = matches-some (nonempty_all is_id_char) _ token in
            token-Invites hash t valid
              (strip_prefix-append (codes "#/invitations/") (codes hash) t e)
        | inr code ↦
            let (c, e, valid) = matches-some is_invitation_code _ code in
            code-Invites hash c valid (strip_prefix-append (codes "#/join/") (codes hash) c e)
      ]

restored_hash-cases :
    (saved : Option String) (hash : String)
    → (restored_hash saved hash ≡ hash)
      ⊎ ((restored_hash saved hash ≡ or_else saved "")
          × (is_invitation_hash (or_else saved "") ≡ true))
unfolding restored_hash
restored_hash-cases saved hash = ground arith

restored_hash-Invites :
    (saved : Option String) (hash : String)
    → (restored_hash saved hash ≡ hash) ⊎ Invites (restored_hash saved hash)
restored_hash-Invites saved hash = elim (restored_hash-cases saved hash) [
  | inl same ↦ inl same
  | inr (e, valid) ↦ inr (rw e (is_invitation_hash-Invites (or_else saved "") valid))
]

-- Whatever the session storage holds, the effect of a user who is signed in leaves the hash as it is
-- or sets it to one that shows an invitation, where the storage can be used.
pub on_ready-Invites :
    (me_success session_expired : Bool) (w v : Window)
    → on_ready me_success session_expired w ≡ some v
    → (v.hash ≡ w.hash) ⊎ Invites v.hash
unfolding on_ready put_invitation
on_ready-Invites me_success session_expired w v h =
    let new = restored_hash w.session.browser.invitation w.hash in
    let split : (v.hash ≡ w.hash) ⊎ (v.hash ≡ new) = ground arith in
    elim split [
      | inl same ↦ inl same
      | inr e ↦ rw e (restored_hash-Invites w.session.browser.invitation w.hash)
    ]
