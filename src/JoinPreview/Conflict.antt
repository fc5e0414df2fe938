-- ===== src/JoinPreview/Conflict.antt =====
-- After a conflict nothing is sent before the invitation has been read, and a request is sent only for
-- an invitation that lasts.
use ai_erp.Base.{
  ℕ, String, ◌≡◌, refl, Bool, true, false, ◌&&◌, none, some, List, [], ◌∷◌, arith, get_elem?,
}
use ai_erp.Base.Lists.{remove_at}
use ai_erp.Session.{SessionEvent, is_session_context_active}
use ai_erp.State.Denials.{Failure, Outcome, value, failed}
use ai_erp.JoinPreview.{
  JoinPreview, is_success, shows_button, click, on_error, reply, end_read, end_conflict_read,
  follow_read, start_timer, PreviewEvent, clicks, starts_timer, fires_timer, replies, ends_read,
  ends_conflict_read, follows_read, in_session, step, run_preview, is_conflict,
}

-- The invitation is not read.
abbrev pub no_read : PreviewEvent → Bool
no_read (ends_read (value i)) = false
no_read (ends_conflict_read n (value i)) = false
no_read _ = true

abbrev pub none_read : List PreviewEvent → Bool
none_read [] = true
none_read (e ∷ es) = no_read e && none_read es

-- A conflict that no read has settled.
record IsHeld (sent : ℕ) (p : JoinPreview) : Type 0 where
  conflict : p.join_conflict ≡ true
  unread : (p.conflict_read_failed && is_success p.status) ≡ false
  closed : p.joins ≡ []
  quiet : p.sent ≡ sent

click-IsHeld : (sent clock : ℕ) (p : JoinPreview) → IsHeld sent p → click clock p ≡ p
click-IsHeld sent clock p h =
    let hidden : shows_button p ≡ false = ground (arith, h.conflict) in rw hidden refl

follow_read-IsHeld : (sent : ℕ) (p : JoinPreview) → IsHeld sent p → IsHeld sent (follow_read p)
unfolding follow_read
follow_read-IsHeld sent p h = ground (arith, h.conflict, h.unread, h.closed, h.quiet)

start_timer-IsHeld :
    (sent clock : ℕ) (p : JoinPreview) → IsHeld sent p → IsHeld sent (start_timer clock p).0
unfolding start_timer
start_timer-IsHeld sent clock p h = ground (arith, h.conflict, h.unread, h.closed, h.quiet)

end_conflict_read-IsHeld :
    (sent n : ℕ) (e : Failure) (p : JoinPreview)
    → IsHeld sent p
    → IsHeld sent (end_conflict_read n (failed e) p)
unfolding end_conflict_read end_read
end_conflict_read-IsHeld sent n e p h = ground (arith, h.conflict, h.unread, h.closed, h.quiet)

reply-IsHeld :
    (sent n : ℕ) (o : Outcome String) (during : List SessionEvent) (p : JoinPreview)
    → IsHeld sent p
    → reply n o during p ≡ p
unfolding reply
reply-IsHeld sent n o during p h =
    let nothing : get_elem? p.joins n ≡ none = rw (h.closed) refl in rw (nothing, reply) refl

step-IsHeld :
    (sent : ℕ) (e : PreviewEvent) (p : JoinPreview)
    → no_read e ≡ true
    → IsHeld sent p
    → IsHeld sent (step e p)
unfolding step end_read
step-IsHeld sent (clicks clock) p q h = rw (click-IsHeld sent clock p h) h
step-IsHeld sent (starts_timer clock) p q h = start_timer-IsHeld sent clock p h
step-IsHeld sent (fires_timer clock) p q h = record {
  conflict = h.conflict;
  unread = h.unread;
  closed = h.closed;
  quiet = h.quiet;
}
step-IsHeld sent (replies n o during) p q h = rw (reply-IsHeld sent n o during p h) h
step-IsHeld sent (ends_read (value i)) p q h = absurd (ground arith)
step-IsHeld sent (ends_read (failed e)) p q h =
    ground (arith, h.conflict, h.unread, h.closed, h.quiet)
step-IsHeld sent (ends_conflict_read n (value i)) p q h = absurd (ground arith)
step-IsHeld sent (ends_conflict_read n (failed e)) p q h = end_conflict_read-IsHeld sent n e p h
step-IsHeld sent follows_read p q h = follow_read-IsHeld sent p h
step-IsHeld sent (in_session e) p q h = record {
  conflict = h.conflict;
  unread = h.unread;
  closed = h.closed;
  quiet = h.quiet;
}

run-IsHeld :
    (sent : ℕ) (es : List PreviewEvent) (p : JoinPreview)
    → none_read es ≡ true
    → IsHeld sent p
    → IsHeld sent (run_preview es p)
unfolding run_preview
run-IsHeld sent [] p q h = h
run-IsHeld sent (e ∷ es) p q h =
    run-IsHeld sent es (step e p) (ground arith) (step-IsHeld sent e p (ground arith) h)

refused-IsHeld :
    (e : Failure) (during : List SessionEvent) (context : ℕ) (p : JoinPreview)
    → is_conflict e ≡ true
    → p.joins ≡ context ∷ []
    → is_session_context_active (some context) p.session ≡ true
    → IsHeld p.sent (reply 0 (failed e) during p)
unfolding reply on_error remove_at
refused-IsHeld e during context p conflict one live =
    let there : get_elem? p.joins 0 ≡ some context = rw one refl in
    let none_left : remove_at 0 p.joins ≡ [] = rw (one, remove_at) refl in
    rw (there, reply, live, conflict)
      record { conflict = refl; unread = refl; closed = none_left; quiet = refl }

-- After the only open request to join is refused with a conflict while its session lasts, no further
-- request is sent, whatever the user, the timers and the session do, until the invitation has been read.
pub run_preview-held :
    (e : Failure) (during : List SessionEvent) (context : ℕ) (es : List PreviewEvent)
    (p : JoinPreview)
    → is_conflict e ≡ true
    → p.joins ≡ context ∷ []
    → is_session_context_active (some context) p.session ≡ true
    → none_read es ≡ true
    → (run_preview es (reply 0 (failed e) during p)).sent ≡ p.sent
run_preview-held e during context es p conflict one live q =
    (run-IsHeld p.sent es (reply 0 (failed e) during p) q
      (refused-IsHeld e during context p conflict one live)).quiet
