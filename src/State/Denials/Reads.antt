-- ===== src/State/Denials/Reads.antt =====
-- Which reads may lift a refusal.
use ai_erp.Base.{
  ℕ, ◌+◌, ◌≤◌, ◌<◌, ◌≡◌, refl, String, Bool, true, false, not, ◌||◌, List, [], ◌∷◌, arith, eq_iff,
  eq_refl, str_eq, leb, or_else, all,
}
use ai_erp.Base.Dict.{get, get-put, get-remove}
use ai_erp.State.{Store, subscribe, unsubscribe, reset_access_state}
use ai_erp.State.Denials.{
  denial_revision, record_access_denial, has_access_denial, clear_access_denial, begin_access_read,
  complete_access_read, access_read_can_clear,
}
use ai_erp.State.Attempts.{
  set_create_attempt, clear_create_attempt, record_creation_uncertainty, clear_creation_uncertainty,
}
use ai_erp.State.Sharing.{
  begin_share_read, set_share_attempt, clear_share_attempt, start_share_attempt,
  begin_share_recovery, clear_share_recovery, invalidate_share_recovery,
}
use ai_erp.State.Events.{StoreEvent, denies, clears_denial, completes, resets, apply_event, run}

-- The part of the store that the operations of one key read.
pub record SameKey (key : String) (s t : Store) : Type 0 where
  pub denial : get key t.denials ≡ get key s.denials
  pub version : get key t.access_versions ≡ get key s.access_versions
  pub read : get key t.read_revisions ≡ get key s.read_revisions

-- The events that bear on the refusal of a key.
unfoldable pub touches : String → StoreEvent → Bool
touches key (denies k) = str_eq k key
touches key (clears_denial k) = str_eq k key
touches key (completes k r) = str_eq k key
touches key resets = true
touches key _ = false

apply_event-SameKey :
    (key : String) (e : StoreEvent) (s : Store)
    → touches key e ≡ false
    → SameKey key s (apply_event e s)
unfolding apply_event touches record_access_denial clear_access_denial complete_access_read
    set_create_attempt clear_create_attempt record_creation_uncertainty clear_creation_uncertainty
    begin_share_read set_share_attempt clear_share_attempt start_share_attempt begin_share_recovery
    clear_share_recovery invalidate_share_recovery subscribe unsubscribe reset_access_state
apply_event-SameKey key (denies k) s h = record {
  denial = ground (arith, get-put key k (denial_revision k s + 1) s.denials);
  version = ground (arith, get-put key k (denial_revision k s + 1) s.access_versions);
  read = refl;
}
apply_event-SameKey key (clears_denial k) s h = record {
  denial = ground (arith, get-remove key k s.denials);
  version = ground arith;
  read = ground (arith, get-remove key k s.read_revisions);
}
apply_event-SameKey key (completes k r) s h = record {
  denial = ground arith;
  version = ground arith;
  read = ground (arith, get-put key k r s.read_revisions);
}
apply_event-SameKey key resets s h = cc
apply_event-SameKey key _ s h = ground arith

-- Reads of `key` that began no later than revision `v`, and no reset.
unfoldable pub is_old : String → ℕ → StoreEvent → Bool
is_old key v (completes k r) = not (str_eq k key) || leb r v
is_old key v resets = false
is_old key v _ = true

record IsLocked (key : String) (v : ℕ) (s : Store) : Type 0 where
  beyond : v < denial_revision key s
  unread : or_else (get key s.read_revisions) 0 ≤ v

SameKey-IsLocked :
    (key : String) (v : ℕ) (s t : Store) → SameKey key s t → IsLocked key v s → IsLocked key v t
SameKey-IsLocked key v s t same l = record {
  beyond = rw same.version l.beyond;
  unread = rw same.read l.unread;
}

apply_event-IsLocked :
    (key : String) (v : ℕ) (e : StoreEvent) (s : Store)
    → is_old key v e ≡ true
    → IsLocked key v s
    → IsLocked key v (apply_event e s)
unfolding is_old apply_event record_access_denial clear_access_denial complete_access_read touches
apply_event-IsLocked key v (denies k) s h l = record {
  beyond =
      ground
        (arith, l.beyond, eq_iff k key, get-put key k (denial_revision k s + 1) s.access_versions);
  unread = l.unread;
}
apply_event-IsLocked key v (clears_denial k) s h l = record {
  beyond = ground (arith, l.beyond);
  unread = ground (arith, l.unread, get-remove key k s.read_revisions);
}
apply_event-IsLocked key v (completes k r) s h l = record {
  beyond = ground (arith, l.beyond);
  unread = ground (arith, l.unread, eq_iff k key, get-put key k r s.read_revisions);
}
apply_event-IsLocked key v resets s h l = cc
apply_event-IsLocked key v e s h l =
    SameKey-IsLocked key v s (apply_event e s) (apply_event-SameKey key e s refl) l

run-IsLocked :
    (key : String) (v : ℕ) (es : List StoreEvent) (s : Store)
    → all (is_old key v) es ≡ true
    → IsLocked key v s
    → IsLocked key v (run es s)
unfolding run
run-IsLocked key v [] s h l = l
run-IsLocked key v (e ∷ es) s h l =
    run-IsLocked key v es (apply_event e s) (ground arith)
      (apply_event-IsLocked key v e s (ground arith) l)

-- No completed read is of a later revision than the key's.
abbrev pub IsBounded : String → Store → Type 0
IsBounded key s = or_else (get key s.read_revisions) 0 ≤ denial_revision key s

apply_event-IsBounded :
    (key : String) (e : StoreEvent) (s : Store) → IsBounded key s → IsBounded key (apply_event e s)
unfolding apply_event record_access_denial clear_access_denial complete_access_read touches
    reset_access_state get
apply_event-IsBounded key (denies k) s b =
    ground (arith, b, eq_iff k key, get-put key k (denial_revision k s + 1) s.access_versions)
apply_event-IsBounded key (clears_denial k) s b =
    ground (arith, b, get-remove key k s.read_revisions)
apply_event-IsBounded key (completes k r) s b =
    ground (arith, b, eq_iff k key, get-put key k r s.read_revisions)
apply_event-IsBounded key resets s b = ground arith
apply_event-IsBounded key e s b =
    let same : SameKey key s (apply_event e s) = apply_event-SameKey key e s refl in
    rw (same.version, same.read) b

-- However the store is used, no completed read of a key is of a later revision than the key's.
run-IsBounded :
    (key : String) (es : List StoreEvent) (s : Store) → IsBounded key s → IsBounded key (run es s)
unfolding run
run-IsBounded key [] s b = b
run-IsBounded key (e ∷ es) s b =
    run-IsBounded key es (apply_event e s) (apply_event-IsBounded key e s b)

-- After a refusal no read that began before it can lift it, whatever else happens in between: until
-- a read of a later revision completes, the refusal of the key cannot be cleared by reads.
pub access_read_can_clear-run_old :
    (key : String) (s : Store) (es : List StoreEvent)
    → IsBounded key s
    → all (is_old key (begin_access_read key s)) es ≡ true
    → access_read_can_clear key (run es (record_access_denial key s)) ≡ false
unfolding access_read_can_clear record_access_denial begin_access_read
access_read_can_clear-run_old key s es b h =
    let locked : IsLocked key (denial_revision key s) (run es (record_access_denial key s)) =
      run-IsLocked key (denial_revision key s) es (record_access_denial key s) h (record {
        beyond =
            ground
              (arith, eq_refl key, get-put key key (denial_revision key s + 1) s.access_versions);
        unread = b;
      }) in
    ground (arith, locked)

run-SameKey :
    (key : String) (es : List StoreEvent) (s : Store)
    → all (λ e. not (touches key e)) es ≡ true
    → SameKey key s (run es s)
unfolding run
run-SameKey key [] s h = record { denial = refl; version = refl; read = refl }
run-SameKey key (e ∷ es) s h =
    let a : SameKey key s (apply_event e s) = apply_event-SameKey key e s (ground arith) in
    let b : SameKey key (apply_event e s) (run es (apply_event e s)) =
      run-SameKey key es (apply_event e s) (ground arith) in
    record {
      denial = cc (a.denial, b.denial);
      version = cc (a.version, b.version);
      read = cc (a.read, b.read);
    }

-- A read that begins while a key is refused, and completes with no other event of the key in
-- between, can clear the refusal, and clearing it lifts it; before it completes nothing is lifted.
pub access_read_lifts :
    (key : String) (s : Store) (es : List StoreEvent)
    → has_access_denial key s ≡ true
    → all (λ e. not (touches key e)) es ≡ true
    → (has_access_denial key (run es s) ≡ true)
      × (access_read_can_clear key (complete_access_read key (begin_access_read key s) (run es s))
          ≡ true)
      × (has_access_denial key (
            clear_access_denial key (complete_access_read key (begin_access_read key s) (run es s)))
          ≡ false)
unfolding has_access_denial access_read_can_clear complete_access_read begin_access_read
    clear_access_denial
access_read_lifts key s es h quiet =
    let same : SameKey key s (run es s) = run-SameKey key es s quiet in
    (
      rw same.denial h,
      ground (
        arith,
        same.denial,
        same.version,
        get-put key key (denial_revision key s) (run es s).read_revisions,
        eq_refl key,
      ),
      ground (arith, same.denial, same.version, get-remove key key (run es s).denials, eq_refl key),
    )
