-- ===== src/ShareDialog/Recovery.antt =====
-- A recovery whose read succeeds makes the invitation changeable again.
use ai_erp.Base.{
  ℕ, ◌≡◌, refl, String, true, false, ◌&&◌, none, some, List, [], ◌∷◌, any, map, arith, is_some,
  ==_iff, if◌then◌else◌, ap, ◌∙◌, sym, subst,
}
use ai_erp.Base.Dict.{get, get-put_self, get-remove_self}
use ai_erp.Base.Lists.{remove_at}
use ai_erp.Session.{run, is_session_context_active}
use ai_erp.QueryCache.{Fetch, dead, cancel_queries, set_query_data}
use ai_erp.State.{Store}
use ai_erp.State.Denials.{
  value, has_access_denial, clear_access_denial, access_read_settled, complete_access_read,
  begin_access_read, access_read_can_clear, denial_revision,
}
use ai_erp.State.Sharing.{
  clear_share_recovery, is_current_share_recovery, begin_share_recovery,
  next_share_attempt_revision, clear_share_attempt,
}
use ai_erp.ShareDialog.{
  ShareDialog, Recovering, Invitation, attempt_of, is_pending, can_change, recovering, recover,
  end_recovery, take_over, recovered, end_recovering,
}

module _ (id : String) (share_key : String) where
  -- The recovery that has begun, its read, and what it leaves in a session that stays.
  dead-idle : (l : List Fetch) → any (λ f. f.live) (map dead l) ≡ false
  dead-idle [] = refl
  dead-idle (f ∷ l) = dead-idle l

  recover-one :
      (d : ShareDialog)
      → is_pending (attempt_of id share_key d) ≡ false
      → get id d.store.share_recoveries ≡ none
      → d.recoveries ≡ []
      → d.session.terminated ≡ false
      → let revision = (next_share_attempt_revision id d.store).1 in
        recover id share_key [] d ≡ record d {
          store = (begin_share_recovery id d.store).0;
          query = cancel_queries d.query;
          recoveries =
              record {
                revision = revision;
                context = d.session.generation;
                access_revision = begin_access_read share_key d.store;
              }
              ∷ [];
        }
  unfolding recover recovering begin_share_recovery run is_session_context_active
  recover-one d free idle none_open live =
      ground (arith, ==_iff d.session.generation d.session.generation)

  -- A read that succeeds with no refusal meanwhile lifts the refusal, if there is one.
  lifted : Store → Store
  lifted s =
      let t = complete_access_read share_key (begin_access_read share_key s) s in
      if access_read_can_clear share_key t then clear_access_denial share_key t else t

  lifted-allowed : (s : Store) → is_some (get share_key (lifted s).denials) ≡ false
  unfolding lifted complete_access_read begin_access_read access_read_can_clear clear_access_denial
  lifted-allowed s = ground (
    arith,
    ==_iff (denial_revision share_key s) (denial_revision share_key s),
    get-put_self share_key (denial_revision share_key s) s.read_revisions,
    get-remove_self share_key s.denials,
  )

  lifted-maps :
      (s : Store)
      → ((lifted s).share_attempts ≡ s.share_attempts)
        × ((lifted s).share_recoveries ≡ s.share_recoveries)
  unfolding lifted complete_access_read begin_access_read access_read_can_clear clear_access_denial
  lifted-maps s = ground arith

  -- The store when the answer has been taken over.
  taken_store : Recovering → ShareDialog → Store
  taken_store r e = clear_share_attempt id (
      if access_read_can_clear share_key e.store
      then clear_access_denial share_key e.store
      else e.store)

  take_over-current :
      (r : Recovering) (v : Invitation) (e : ShareDialog)
      → is_session_context_active (some r.context) e.session ≡ true
      → is_current_share_recovery id r.revision e.store ≡ true
      → take_over id share_key r v e
        ≡ record e { query = set_query_data v e.query; store = taken_store r e }
  unfolding take_over taken_store
  take_over-current r v e live current =
      let both : (is_session_context_active (some r.context) e.session
            && is_current_share_recovery id r.revision e.store)
          ≡ true =
        cc in
      rw (both, take_over) refl

  taken :
      (r : Recovering) (v : Invitation) (e : ShareDialog)
      → is_session_context_active (some r.context) e.session ≡ true
      → is_current_share_recovery id r.revision e.store ≡ true
      → recovered id share_key r (value v) e ≡ record e {
        query = set_query_data v e.query;
        store = clear_share_recovery id r.revision (taken_store r e);
      }
  unfolding recovered end_recovery
  taken r v e live current = rw (take_over-current r v e live current) (
      ap
        (λ b.
          if b
          then record e {
            query = set_query_data v e.query;
            store = clear_share_recovery id r.revision (taken_store r e);
          }
          else record e { query = set_query_data v e.query; store = taken_store r e })
        live)

  begun-current :
      (s : Store)
      → get id s.share_recoveries ≡ none
      → is_current_share_recovery id
          (next_share_attempt_revision id s).1
          (begin_share_recovery id s).0
        ≡ true
  unfolding is_current_share_recovery begin_share_recovery
  begun-current s h =
      let revision = (next_share_attempt_revision id s).1 in
      ground (arith, get-put_self id revision s.share_recoveries, ==_iff revision revision)

  completed-current :
      (revision read : ℕ) (s : Store)
      → is_current_share_recovery id revision (complete_access_read share_key read s)
        ≡ is_current_share_recovery id revision s
  unfolding is_current_share_recovery complete_access_read
  completed-current revision read s = ground arith

  begun-denied :
      (s : Store)
      → begin_access_read share_key (begin_share_recovery id s).0 ≡ begin_access_read share_key s
  unfolding begin_access_read begin_share_recovery
  begun-denied s = ground arith

  ended :
      (revision : ℕ) (s : Store)
      → is_current_share_recovery id revision s ≡ true
      → (get id (clear_share_recovery id revision (clear_share_attempt id s)).share_recoveries
          ≡ none)
        × (get id (clear_share_recovery id revision (clear_share_attempt id s)).share_attempts
            ≡ none)
        × ((clear_share_recovery id revision (clear_share_attempt id s)).denials ≡ s.denials)
  unfolding clear_share_recovery clear_share_attempt is_current_share_recovery
  ended revision s h =
      ground (arith, get-remove_self id s.share_recoveries, get-remove_self id s.share_attempts)

  lifted-current :
      (revision : ℕ) (s : Store)
      → is_current_share_recovery id revision (lifted s) ≡ is_current_share_recovery id revision s
  unfolding is_current_share_recovery
  lifted-current revision s = rw ((lifted-maps s).1) refl

  abbrev begun : ShareDialog → Store
  begun d = (begin_share_recovery id d.store).0

  abbrev waiting_recovery : ShareDialog → Recovering
  waiting_recovery d = record {
    revision = (next_share_attempt_revision id d.store).1;
    context = d.session.generation;
    access_revision = begin_access_read share_key d.store;
  }

  -- The dialog when the read has ended.
  abbrev reading : ShareDialog → ShareDialog
  reading d = record d {
    store = complete_access_read share_key (begin_access_read share_key d.store) (begun d);
    query = cancel_queries d.query;
    recoveries = [];
  }

  end_recovering-recover :
      (v : Invitation) (d : ShareDialog)
      → is_pending (attempt_of id share_key d) ≡ false
      → get id d.store.share_recoveries ≡ none
      → d.recoveries ≡ []
      → d.session.terminated ≡ false
      → end_recovering id share_key 0 (value v) (recover id share_key [] d)
        ≡ recovered id share_key (waiting_recovery d) (value v) (reading d)
  unfolding end_recovering access_read_settled remove_at
  end_recovering-recover v d free idle none_open live =
      rw (recover-one d free idle none_open live) refl

  same_generation :
      (d : ShareDialog)
      → d.session.terminated ≡ false
      → is_session_context_active (some d.session.generation) d.session ≡ true
  unfolding is_session_context_active
  same_generation d live = ground (arith, ==_iff d.session.generation d.session.generation)

  taken_store-reading :
      (d : ShareDialog)
      → taken_store (waiting_recovery d) (reading d) ≡ clear_share_attempt id (lifted (begun d))
  unfolding taken_store lifted
  taken_store-reading d = rw (begun-denied d.store) refl

  abbrev Changeable : Invitation → ShareDialog → Type 0
  Changeable v q =
      (can_change id share_key q ≡ true)
      × (q.query.found ≡ some v)
      × (attempt_of id share_key q ≡ none)
      × (q.recoveries ≡ [])

  ended-Changeable :
      (v : Invitation) (revision : ℕ) (s : Store) (d : ShareDialog)
      → is_current_share_recovery id revision s ≡ true
      → Changeable v (record d {
        query = set_query_data v (cancel_queries d.query);
        store = clear_share_recovery id revision (clear_share_attempt id (lifted s));
        recoveries = [];
      })
  unfolding set_query_data cancel_queries has_access_denial
  ended-Changeable v revision s d current =
      let (gone, settled, kept) = ended revision (lifted s) (lifted-current revision s ∙ current) in
      (
        rw (gone, settled, kept, lifted-allowed s, dead-idle d.query.fetches) refl,
        refl,
        settled,
        refl,
      )

  -- If nothing is pending and no recovery runs, a recovery whose read succeeds in the live session that
  -- it began in, with nothing else in between, makes the invitation changeable again: it shows what was
  -- read, and no attempt or recovery is left.
  pub recover-can_change :
      (v : Invitation) (d : ShareDialog)
      → is_pending (attempt_of id share_key d) ≡ false
      → get id d.store.share_recoveries ≡ none
      → d.recoveries ≡ []
      → d.session.terminated ≡ false
      → let q = end_recovering id share_key 0 (value v) (recover id share_key [] d) in
        (can_change id share_key q ≡ true)
        × (q.query.found ≡ some v)
        × (attempt_of id share_key q ≡ none)
        × (q.recoveries ≡ [])
  recover-can_change v d free idle none_open live =
      let current = begun-current d.store idle in
      let revision = (next_share_attempt_revision id d.store).1 in
      let read = begin_access_read share_key d.store in
      subst (Changeable v)
        (sym (
          end_recovering-recover v d free idle none_open live
          ∙ taken (waiting_recovery d) v (reading d) (same_generation d live)
              (completed-current revision read (begun d) ∙ current)))
        (rw (taken_store-reading d) (ended-Changeable v revision (begun d) d current))
