-- ===== src/ScheduleTime/Recovery.antt =====
-- What the result of a write of times tells about the server.
use ai_erp.Base.{
  ℕ, ◌≤◌, ◌<◌, ◌≡◌, refl, ◌≢◌, ◌↔◌, ◌⊎◌, inl, inr, String, Bool, true, false, Option, some, arith,
  if◌then◌else◌, Bool-cases, ap, ◌==◌,
}
use ai_erp.State.Denials.{Failure, api_error, other_error, Outcome, value, failed}
use ai_erp.ScheduleTime.{
  CalendarSchedule, ScheduleTimeChange, Cause, conflict, rejected, recovered, locked, is_definitive,
  cause_of, is_committed, recover, execute_schedule_time_mutation,
}

-- A server as the frontend meets it: the times before the write, and whether the write took effect.
-- Nobody else changes the times before they are read again.
pub after_write : CalendarSchedule → ScheduleTimeChange → Bool → CalendarSchedule
after_write before change took =
    if took
    then record before { starts_at = change.starts_at; ends_at = change.ends_at }
    else before

committed_iff :
    (date_parse : String → Option ℕ) (change : ScheduleTimeChange) (latest : CalendarSchedule)
    (m n : ℕ)
    → date_parse change.starts_at ≡ some m
    → date_parse change.ends_at ≡ some n
    → (is_committed date_parse latest change ≡ true)
      ↔ ((date_parse latest.starts_at ≡ some m) × (date_parse latest.ends_at ≡ some n))
committed_iff date_parse change latest m n p q =
    (λ h. (ground (arith, p, q), ground (arith, p, q)), λ h. ground (arith, h.0, h.1, p, q))

definitive_status :
    (error : Failure)
    → ((status : ℕ) → error ≡ api_error status → (status < 400) ⊎ (500 ≤ status) ⊎ (status ≡ 409))
    → is_definitive error ≡ false
definitive_status other_error d = refl
definitive_status (api_error status) d = let one = d status refl in ground (arith, one)

conflict_iff : (error : Failure) → (cause_of error ≡ conflict) ↔ (error ≡ api_error 409)
conflict_iff other_error = (λ h. cc, λ h. cc)
conflict_iff (api_error status) = elim (Bool-cases (status == 409)) [
  | inl same ↦ let here : status ≡ 409 = ground arith in (λ h. ap api_error here, λ h. rw same refl)
  | inr other ↦ (λ h. cc (rw other at h), λ h. absurd (ground arith))
]

module _ {R T : Type 0} (date_parse : String → Option ℕ) (can_edit : R → CalendarSchedule → Bool)
    (change : ScheduleTimeChange) where
  -- A write fails with an error that is no status from 400 to 499, or is 409, after it took effect or
  -- not, and the three reads that follow succeed, the new times being dates: the result holds the
  -- schedule of the server and what its role may do with it; it says that the change is committed
  -- exactly if the write took effect or both times of the schedule were those instants already, and that
  -- there was a conflict exactly if the status was 409.
  pub recovered_tells :
      (before : CalendarSchedule) (took : Bool) (error : Failure) (role : R) (target : T) (m n : ℕ)
      → ((status : ℕ) → error ≡ api_error status → (status < 400) ⊎ (500 ≤ status) ⊎ (status ≡ 409))
      → date_parse change.starts_at ≡ some m
      → date_parse change.ends_at ≡ some n
      → (committed : Bool) × (cause : Cause) × (execute_schedule_time_mutation date_parse can_edit
            change
            (failed error)
            (value (after_write before change took))
            (value role)
            (value target)
          ≡ recovered
              (after_write before change took)
              committed
              (can_edit role (after_write before change took))
              cause)
        × ((committed ≡ true) ↔ (
            (took ≡ true)
            ⊎ ((date_parse before.starts_at ≡ some m) × (date_parse before.ends_at ≡ some n))))
        × ((cause ≡ conflict) ↔ (error ≡ api_error 409))
  unfolding execute_schedule_time_mutation after_write
  recovered_tells before true error role target m n d p q =
      let lost = definitive_status error d in
      let latest = after_write before change true in
      let (to, from) = committed_iff date_parse change latest m n p q in
      (
        is_committed date_parse latest change,
        cause_of error,
        rw lost refl,
        (λ h. inl refl, λ h. from (p, q)),
        conflict_iff error,
      )
  recovered_tells before false error role target m n d p q =
      let lost = definitive_status error d in
      let (to, from) = committed_iff date_parse change before m n p q in
      (
        is_committed date_parse before change,
        cause_of error,
        rw lost refl,
        (λ h. inr (to h), λ h. elim h [ inl took ↦ cc | inr both ↦ from both ]),
        conflict_iff error,
      )

  recover-ne-rejected :
      (w : Failure) (latest : Outcome CalendarSchedule) (role : Outcome R) (target : Outcome T)
      (e : Failure)
      → recover date_parse can_edit change w latest role target ≡ rejected e
      → ⊥
  unfolding recover
  recover-ne-rejected w (value l) (value r) (value t) e h = cc
  recover-ne-rejected w (failed x) role target e h = cc
  recover-ne-rejected w (value l) (failed x) target e h = cc
  recover-ne-rejected w (value l) (value r) (failed x) e h = cc

  rejected_status :
      (n : ℕ) (latest : Outcome CalendarSchedule) (role : Outcome R) (target : Outcome T)
      (e : Failure)
      → execute_schedule_time_mutation date_parse can_edit change
          (failed (api_error n))
          latest
          role
          target
        ≡ rejected e
      → (status : ℕ) × (◌≡◌ {A = Outcome CalendarSchedule} (failed (api_error n)) (failed e))
        × (e ≡ api_error status)
        × (400 ≤ status)
        × (status < 500)
        × (status ≢ 409)
  unfolding execute_schedule_time_mutation
  rejected_status n latest role target e h = elim (Bool-cases (is_definitive (api_error n))) [
    | inl d ↦
        let same : rejected (api_error n) ≡ rejected e = rw d at h in
        (n, cc same, cc same, ground arith, ground arith, ground arith)
    | inr d ↦ absurd (recover-ne-rejected (api_error n) latest role target e (rw d at h))
  ]

  -- A write is reported as rejected exactly if it failed with a status from 400 to 499 that is not
  -- 409, and with that failure; then none of the reads has a say.
  pub rejected_iff :
      (write latest : Outcome CalendarSchedule) (role : Outcome R) (target : Outcome T)
      (e : Failure)
      → (execute_schedule_time_mutation date_parse can_edit change write latest role target
          ≡ rejected e)
        ↔ ((status : ℕ) × (write ≡ failed e)
            × (e ≡ api_error status)
            × (400 ≤ status)
            × (status < 500)
            × (status ≢ 409))
  unfolding execute_schedule_time_mutation
  rejected_iff (value w) latest role target e = (λ h. cc, λ h. cc (h.1))
  rejected_iff (failed other_error) latest role target e =
      (λ h. absurd (recover-ne-rejected other_error latest role target e h), λ h. cc (h.1, h.2))
  rejected_iff (failed (api_error status)) latest role target e = (
    λ h. rejected_status status latest role target e h,
    λ h. ground (arith, h.1, h.2, h.3, h.4, h.5),
  )

  locked_reads :
      (w : Failure) (latest : Outcome CalendarSchedule) (role : Outcome R) (target : Outcome T)
      (e : Failure) (t : Option Failure)
      → recover date_parse can_edit change w latest role target ≡ locked e t
      → (latest ≡ failed e) ⊎ (role ≡ failed e) ⊎ (target ≡ failed e)
  unfolding recover
  locked_reads w (value l) (value r) (value x) e t h = cc
  locked_reads w (failed x) role target e t h = inl (cc)
  locked_reads w (value l) (failed x) target e t h = inr (inl (cc))
  locked_reads w (value l) (value r) (failed x) e t h = inr (inr (cc))

  -- A lock names the failure of one of the three reads, and comes only after a write that failed
  -- without a definitive answer.
  pub locked_by_read :
      (write latest : Outcome CalendarSchedule) (role : Outcome R) (target : Outcome T)
      (e : Failure) (t : Option Failure)
      → execute_schedule_time_mutation date_parse can_edit change write latest role target
        ≡ locked e t
      → ((latest ≡ failed e) ⊎ (role ≡ failed e) ⊎ (target ≡ failed e))
        × ((w : Failure) × (write ≡ failed w) × (is_definitive w ≡ false))
  unfolding execute_schedule_time_mutation
  locked_by_read (value w) latest role target e t h = cc
  locked_by_read (failed w) latest role target e t h = elim (Bool-cases (is_definitive w)) [
    | inl d ↦ cc (rw d at h)
    | inr d ↦ (locked_reads w latest role target e t (rw d at h), (w, refl, d))
  ]
