-- ===== src/ProjectStart/Outcomes.antt =====
-- What a definitive answer leaves behind.
use ai_erp.Base.{
  ◌≡◌, refl, String, Bool, true, false, Option, none, some, [], ◌∷◌, ◌++◌, if◌then◌else◌, str_eq,
  Bool-cases, inl, inr,
}
use ai_erp.Base.Dict.{get-put_self, get-remove_self}
use ai_erp.Session.{SessionEvent, happen, is_session_context_active}
use ai_erp.State.Attempts.{get_create_attempt}
use ai_erp.State.Denials.{Failure, value, failed}
use ai_erp.Base.Lists.{remove_at, replace_at}
use ai_erp.ProjectStart.{
  Created, Request, Page, submit, reply, settle, on_error, finish, invalidated, start, put_attempt,
  is_refusal, checked_created, is_name,
}
use ai_erp.ProjectStart.Attempt.{attempt_of}

abbrev is_live : Request → Page → Bool
is_live r p = is_session_context_active (some r.context) p.session

module _ (key : String) (trim : String → String) where
  reply-refused :
      (r : Request) (e : Failure) (p : Page)
      → p.open_requests ≡ r ∷ []
      → r.answered ≡ none
      → is_live r p ≡ true
      → is_refusal e ≡ true
      → reply key trim 0 (failed e) p
        ≡ put_attempt key trim r.body false false (record p { open_requests = [] })
  unfolding reply settle on_error remove_at
  reply-refused r e p one waits live refused = rw (one, waits, live, refused) refl

  -- If the only open request of a live session is refused with 400 or 409, no request is open then,
  -- and the next name that can be used is sent: with the identifier of the refused request if it is
  -- the same name, else with a new one.
  pub submit-reply_refused :
      (r : Request) (e : Failure) (name fresh : String) (p : Page)
      → p.open_requests ≡ r ∷ []
      → r.answered ≡ none
      → is_live r p ≡ true
      → is_refusal e ≡ true
      → is_name (trim name) ≡ true
      → ((reply key trim 0 (failed e) p).open_requests ≡ [])
        × ((submit key trim false name fresh (reply key trim 0 (failed e) p)).sent
            ≡ p.sent
              ++ record {
                name = trim name;
                request_id = if str_eq r.body.name (trim name) then r.body.request_id else fresh;
              }
                ∷ [])
  unfolding submit start put_attempt get_create_attempt
  submit-reply_refused r e name fresh p one waits live refused good =
      rw (reply-refused r e p one waits live refused) (refl, rw (get-put_self, good, submit) refl)

  -- If the only open request of a live session creates a project, and the session changes only
  -- afterwards, the end of the request leaves none open and sends nothing. If the session of the
  -- request is still active then, the attempt is forgotten and the project is opened; else the
  -- attempt stays pending and nothing is opened.
  pub invalidated-created :
      (r : Request) (v : Option Created) (id : String) (e : SessionEvent) (p : Page)
      → p.open_requests ≡ r ∷ []
      → r.answered ≡ none
      → is_live r p ≡ true
      → checked_created v ≡ value id
      → let s = happen e p.session in
        let later = is_session_context_active (some r.context) s in
        let q = invalidated key trim 0 (record (reply key trim 0 (value v) p) { session = s }) in
        (q.open_requests ≡ [])
        × (q.sent ≡ p.sent)
        × (q.opened ≡ (if later then some id else p.opened))
        × (attempt_of key q ≡ (
            if later
            then none
            else some (record {
              name = r.body.name;
              request_id = r.body.request_id;
              uncertain = false;
              pending = true;
            })))
  unfolding reply settle invalidated finish put_attempt remove_at replace_at
  invalidated-created r v id e p one waits live made =
      elim (Bool-cases (is_session_context_active (some r.context) (happen e p.session))) [
        | inl on ↦ rw (one, waits, made, live, on) (refl, refl, refl, rw get-remove_self refl)
        | inr over ↦ rw (one, waits, made, live, over) (refl, refl, refl, rw get-put_self refl)
      ]
