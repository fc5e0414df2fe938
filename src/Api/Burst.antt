-- ===== src/Api/Burst.antt =====
-- Many reads of one session that are open at once, as the queries of a page are.
use ai_erp.Base.{
  ℕ, suc, ◌≡◌, ◌≤◌, refl, String, Bool, true, false, not, ◌||◌, some, List, [], ◌∷◌, arith, ◌==◌,
  any, if◌then◌else◌, Bool-cases, inl, inr, ap, sym, subst, ◌∙◌,
}
use ai_erp.Session.{Session, SessionEvent, begins, happen, run, is_session_active}
use ai_erp.Session.Laws.{IsPast, run-IsPast}
use ai_erp.Api.{Response, parse, arrived, read}

active-le : (g : ℕ) (s : Session) → is_session_active g s ≡ true → g ≤ s.generation
unfolding is_session_active
active-le g s live = ground arith

begins-over :
    (g : ℕ) (s : Session) → g ≤ s.generation → is_session_active g (happen begins s) ≡ false
unfolding happen is_session_active
begins-over g s h = ground arith

module _ {A : Type 0} where
  -- The session after reads of the generation `g` were answered one after another, each with its path.
  abbrev pub answered : ℕ → List (String × Response A) → Session → Session
  answered g [] s = s
  answered g ((path, r) ∷ rs) s =
      answered g rs (read path g (record { before = []; response = some r; during = [] }) s).0

  abbrev pub unauthorized : List (String × Response A) → Bool
  unauthorized rs = any (λ r. r.1.status == 401) rs

  read-past :
      (path : String) (g : ℕ) (r : Response A) (s : Session)
      → is_session_active g s ≡ false
      → (read path g (record { before = []; response = some r; during = [] }) s).0 ≡ s
  unfolding read arrived parse run
  read-past path g r s over = ground arith

  answered-past :
      (g : ℕ) (rs : List (String × Response A)) (s : Session)
      → is_session_active g s ≡ false
      → answered g rs s ≡ s
  answered-past g [] s over = refl
  answered-past g ((path, r) ∷ rs) s over =
      rw (read-past path g r s over) (answered-past g rs s over)

  read-session :
      (path : String) (g : ℕ) (r : Response A) (s : Session)
      → is_session_active g s ≡ true
      → (r.status == 401) ≡ false
      → (read path g (record { before = []; response = some r; during = [] }) s).0 ≡ s
  unfolding read arrived parse run
  read-session path g r s live other = ground arith

  read-ends :
      (path : String) (g : ℕ) (r : Response A) (s : Session)
      → is_session_active g s ≡ true
      → s.browser.has_window ≡ true
      → (r.status == 401) ≡ true
      → let f = (read path g (record { before = []; response = some r; during = [] }) s).0 in
        IsPast g f × (f.browser.expired_events ≡ suc s.browser.expired_events)
  unfolding read arrived parse run is_session_active
  read-ends path g r s live window refused =
      (record { reached = ground arith; ended = ground arith }, ground arith)

  -- What the answers to the reads of a live session leave.
  record IsAnswered (g : ℕ) (rs : List (String × Response A)) (s f : Session) : Type 0 where
    reached : g ≤ f.generation
    live_still : is_session_active g f ≡ not (unauthorized rs)
    announced :
        f.browser.expired_events
        ≡ (if unauthorized rs then suc s.browser.expired_events else s.browser.expired_events)

  answered-IsAnswered :
      (g : ℕ) (rs : List (String × Response A)) (s : Session)
      → is_session_active g s ≡ true
      → s.browser.has_window ≡ true
      → IsAnswered g rs s (answered g rs s)
  answered-IsAnswered g [] s live window = record {
    reached = active-le g s live;
    live_still = live;
    announced = refl;
  }
  answered-IsAnswered g ((path, r) ∷ rs) s live window = elim (Bool-cases (r.status == 401)) [
    | inl refused ↦
        let (past, event) = read-ends path g r s live window refused in
        let f = (read path g (record { before = []; response = some r; during = [] }) s).0 in
        let same = answered-past g rs f (past.ended) in
        record {
          reached = subst (λ x. g ≤ x.generation) (sym same) (past.reached);
          live_still =
              ap (λ x. is_session_active g x) same
              ∙ past.ended
              ∙ ap (λ b. not (b || unauthorized rs)) (sym refused);
          announced =
              ap (λ x. x.browser.expired_events) same
              ∙ event
              ∙ ap
                  (λ b.
                    if b || unauthorized rs
                    then suc s.browser.expired_events
                    else s.browser.expired_events)
                  (sym refused);
        }
    | inr other ↦
        let same = read-session path g r s live other in
        let rest = answered-IsAnswered g rs s live window in
        record {
          reached = subst (λ x. g ≤ (answered g rs x).generation) (sym same) (rest.reached);
          live_still =
              ap (λ x. is_session_active g (answered g rs x)) same
              ∙ rest.live_still
              ∙ ap (λ b. not (b || unauthorized rs)) (sym other);
          announced =
              ap (λ x. (answered g rs x).browser.expired_events) same
              ∙ rest.announced
              ∙ ap
                  (λ b.
                    if b || unauthorized rs
                    then suc s.browser.expired_events
                    else s.browser.expired_events)
                  (sym other);
        }
  ]

  -- Reads of one live session are answered one after another, with nothing else in between, and then a
  -- new session begins, in which anything may happen before the late answers to further reads of the old
  -- one. If there is a window, the session ends exactly if one of the first answers is a 401, with a
  -- single event however many are, and the late answers, whatever their status, leave the new session
  -- as it is.
  pub answered-once :
      (g : ℕ) (rs late : List (String × Response A)) (es : List SessionEvent) (s : Session)
      → is_session_active g s ≡ true
      → s.browser.has_window ≡ true
      → let f = answered g rs s in
        (is_session_active g f ≡ not (unauthorized rs))
        × (f.browser.expired_events
            ≡ (if unauthorized rs then suc s.browser.expired_events else s.browser.expired_events))
        × (answered g late (run (begins ∷ es) f) ≡ run (begins ∷ es) f)
  unfolding run happen
  answered-once g rs late es s live window =
      let now = answered-IsAnswered g rs s live window in
      let fresh : IsPast g (happen begins (answered g rs s)) = record {
        reached = omega (arith, now.reached);
        ended = begins-over g (answered g rs s) (now.reached);
      } in
      (
        now.live_still,
        now.announced,
        answered-past g late (run (begins ∷ es) (answered g rs s))
            ((run-IsPast es g (happen begins (answered g rs s)) fresh).ended),
      )
