-- ===== src/ScheduleForm/Emails.antt =====
-- The e-mail addresses of the form's field for guests.
use ai_erp.Base.{
  ℕ, ◌==◌, Bool, true, false, not, ◌&&◌, ◌||◌, List, [], ◌∷◌, all, map, select, if◌then◌else◌,
}
use ai_erp.Base.Text.{is_empty}

-- `.split(",")`
unfoldable pub split_commas : List ℕ → List (List ℕ)
split_commas [] = [] ∷ []
split_commas (c ∷ cs) =
    let rest = split_commas cs in
    if c == b',' then [] ∷ rest else elim rest [ [] ↦ (c ∷ []) ∷ [] | t ∷ ts ↦ (c ∷ t) ∷ ts ]

-- `[^\s@]+\.[^\s@]+`, of a text without spaces and `@`: a dot that is neither first nor last.
abbrev has_dot : Bool → List ℕ → Bool
has_dot behind [] = false
has_dot behind (c ∷ cs) = (behind && c == b'.' && not (is_empty cs)) || has_dot true cs

-- `is_space` is `\s`, and `trim` the method of texts.
module _ (is_space : ℕ → Bool) where
  abbrev is_plain : ℕ → Bool
  is_plain c = not (is_space c) && not (c == b'@')

  -- `[^\s@]+@[^\s@]+\.[^\s@]+`
  unfoldable pub is_email : Bool → List ℕ → Bool
  is_email behind [] = false
  is_email behind (c ∷ cs) =
      let rest = is_email true cs in
      if c == b'@' then behind && all is_plain cs && has_dot false cs else not (is_space c) && rest

  unfoldable pub emails_in : (List ℕ → List ℕ) → List ℕ → List (List ℕ)
  unfolding split_commas
  emails_in trim external = select (λ e. not (is_empty e)) (map trim (split_commas external))
