-- ===== src/CliAuth/Decide.antt =====
-- What the person's decision and the hand-out of the token change.
use openpostfork.Prelude.{
  ℕ, ◌+◌, String, ◌≡◌, refl, sym, ap, subst, ◌⊎◌, inl, inr, Bool, true, false, ◌&&◌, none, some,
  List, [], ◌∷◌, arith, ◌==◌, Bool-cases, Option-cases, All, ok, Result-cases,
}
use openpostfork.Prelude.Table.{update_where, In, In-update}
use openpostfork.CliAuth.{
  Session, SessionStatus, pending, approved, denied, expired, other_status, Store, Services,
  Statement, approve, deny, cleanup, expire, consume, touch, PollAnswer, CliError, is_pending,
  is_approved, pending_id, approved_id, update_sessions, expire_if_needed, has_run_out, set_expired,
  set_approved, set_denied, approve_loaded, approve_session, approve_status, deny_loaded,
  deny_session, deny_status, cleanup_expired, session_by_code, session_by_device_code, poll_session,
  poll_loaded, poll_status, polls_too_fast, touched, consume_approved_session, or_default,
  session_expired, poll_running, poll_checked,
}

-- The sessions of an id, all of them not approved.
abbrev pub NoneApproved : String → List Session → Type 0
NoneApproved key = All (λ r. (r.id == key) ≡ true → is_approved r.status ≡ false)

and_false : (b : Bool) → (b && false) ≡ false
and_false true = refl
and_false false = refl

module _ {T : Type 0} (v : Services T) where
  expired_rows :
      (key : String) (rows : List Session)
      → NoneApproved key (update_where (approved_id key) (set_expired v) rows)
  expired_rows key [] = tt
  expired_rows key (x ∷ xs) = (ground arith, expired_rows key xs)

  -- An update of pending sessions leaves the others.
  update_decided :
      (st : Statement) (test : Session → Bool) (set : Session → Session) (s : Store T) (r : Session)
      → test r ≡ false
      → In r s.sessions
      → In r (update_sessions v st test set s).1.sessions
  unfolding update_sessions
  update_decided st test set s r d i = elim (Option-cases (v.fails st)) [
    | inl e ↦
        rw (e, update_sessions)
          (subst (λ q. In q (update_where test set s.sessions)) (rw d refl)
            (In-update test set r s.sessions i))
    | inr q ↦ rw (q.1, update_sessions) i
  ]

  not_pending :
      (key : String) (r : Session) → is_pending r.status ≡ false → pending_id key r ≡ false
  not_pending key r d = rw d (and_false (r.id == key))

  expire_decided :
      (s : Session) (now : ℕ) (st : Store T) (r : Session)
      → is_pending r.status ≡ false
      → In r st.sessions
      → In r (expire_if_needed v s now st).2.sessions
  unfolding expire_if_needed
  expire_decided s now st r d i = elim (Bool-cases (has_run_out v s now)) [
    | inr e ↦ rw e i
    | inl e ↦
        elim (Option-cases (update_sessions v expire (pending_id s.id) (set_expired v) st).0) [
          | inl f ↦
              rw (e, f, expire_if_needed)
                (update_decided expire (pending_id s.id) (set_expired v) st r (not_pending s.id r d)
                  i)
          | inr q ↦
              rw (e, q.1, expire_if_needed)
                (update_decided expire (pending_id s.id) (set_expired v) st r (not_pending s.id r d)
                  i)
        ]
  ]

  approve_status_decided :
      (status : SessionStatus) (s : Session) (user scopes name : String) (now : ℕ) (st : Store T)
      (r : Session)
      → is_pending r.status ≡ false
      → In r st.sessions
      → In r (approve_status v status s user scopes name now st).1.sessions
  unfolding approve_status
  approve_status_decided pending s user scopes name now st r d i =
      update_decided approve (pending_id s.id)
        (set_approved v user (or_default v scopes s.requested_scopes)
          (or_default v name s.client_name) now)
        st r (not_pending s.id r d) i
  approve_status_decided approved s user scopes name now st r d i = i
  approve_status_decided denied s user scopes name now st r d i = i
  approve_status_decided expired s user scopes name now st r d i = i
  approve_status_decided (other_status _) s user scopes name now st r d i = i

  deny_status_decided :
      (status : SessionStatus) (s : Session) (now : ℕ) (st : Store T) (r : Session)
      → is_pending r.status ≡ false
      → In r st.sessions
      → In r (deny_status v status s now st).1.sessions
  unfolding deny_status
  deny_status_decided pending s now st r d i =
      update_decided deny (pending_id s.id) (set_denied v now) st r (not_pending s.id r d) i
  deny_status_decided approved s now st r d i = i
  deny_status_decided denied s now st r d i = i
  deny_status_decided expired s now st r d i = i
  deny_status_decided (other_status _) s now st r d i = i

  approve_decided :
      (user code scopes name : String) (now : ℕ) (st : Store T) (r : Session)
      → is_pending r.status ≡ false
      → In r st.sessions
      → In r (approve_session v user code scopes name now st).1.sessions
  unfolding approve_session approve_loaded
  approve_decided user code scopes name now st r d i =
      elim (Result-cases (session_by_code v code st)) [
        | inl q ↦ rw (q.1, approve_session) i
        | inr q ↦
            let x = expire_if_needed v q.0 now st in
            let k : In r x.2.sessions = expire_decided q.0 now st r d i in
            rw (q.1, approve_session)
              (elim (Option-cases x.0) [
                | inl e ↦
                    rw (e, approve_loaded)
                      (approve_status_decided x.1.status x.1 user scopes name now x.2 r d k)
                | inr p ↦ rw (p.1, approve_loaded) k
              ])
      ]

  deny_decided :
      (code : String) (now : ℕ) (st : Store T) (r : Session)
      → is_pending r.status ≡ false
      → In r st.sessions
      → In r (deny_session v code now st).1.sessions
  unfolding deny_session deny_loaded
  deny_decided code now st r d i = elim (Result-cases (session_by_code v code st)) [
    | inl q ↦ rw (q.1, deny_session) i
    | inr q ↦
        let x = expire_if_needed v q.0 now st in
        let k : In r x.2.sessions = expire_decided q.0 now st r d i in
        rw (q.1, deny_session)
          (elim (Option-cases x.0) [
            | inl e ↦ rw (e, deny_loaded) (deny_status_decided x.1.status x.1 now x.2 r d k)
            | inr p ↦ rw (p.1, deny_loaded) k
          ])
  ]

  -- A session that is no longer pending is changed by no approval, denial or clean-up, whatever
  -- their codes and their times, and whichever statements fail.
  pub decided_session_stays :
      (r : Session) (st : Store T)
      → is_pending r.status ≡ false
      → In r st.sessions
      → ((user code scopes name : String) (now : ℕ)
          → In r (approve_session v user code scopes name now st).1.sessions)
        × ((code : String) (now : ℕ) → In r (deny_session v code now st).1.sessions)
        × ((now : ℕ) → In r (cleanup_expired v now st).1.sessions)
  unfolding cleanup_expired
  decided_session_stays r st d i = (
    (λ user code scopes name now. approve_decided user code scopes name now st r d i),
    (λ code now. deny_decided code now st r d i),
    (λ now. update_decided cleanup (λ s. has_run_out v s now) (set_expired v) st r (rw d refl) i),
  )

  -- A poll handed out a token of an approved session, and no session of its id is approved after it.
  abbrev pub HandedOut : String → Store T → Store T → Type 0
  HandedOut code st after =
      (s : Session) × (session_by_device_code v code st ≡ ok s)
      × (s.status ≡ approved)
      × NoneApproved s.id after.sessions

  consumed :
      (s : Session) (now : ℕ) (st : Store T)
      → (consume_approved_session v s now st).1 ≡ none
      → NoneApproved s.id (consume_approved_session v s now st).2.sessions
  unfolding consume_approved_session update_sessions
  consumed s now st h = elim (Bool-cases (s.user_id == "")) [
    | inl e ↦ cc (rw e at h)
    | inr e ↦
        elim (Result-cases
          (v.generate_token s.user_id s.client_name s.requested_scopes (now + v.token_lifetime)
            st.tokens).0) [
              | inl q ↦ cc (rw (e, q.1) at h)
              | inr q ↦ elim (Option-cases (v.fails consume)) [
                | inr p ↦ cc (rw (e, q.1, p.1, update_sessions) at h)
                | inl p ↦
                    rw (e, q.1, p, consume_approved_session, update_sessions)
                      (expired_rows s.id st.sessions)
              ]
            ]
  ]

  status_poll :
      (status : SessionStatus) (s t : Session) (now : ℕ) (st : Store T)
      → s.status ≡ status
      → t.id ≡ s.id
      → (poll_status v status t now st).1 ≡ none
      → (s.status ≡ approved) × NoneApproved s.id (poll_status v status t now st).2.sessions
  unfolding poll_status
  status_poll pending s t now st e k h = cc
  status_poll denied s t now st e k h = cc
  status_poll expired s t now st e k h = cc
  status_poll (other_status _) s t now st e k h = cc
  status_poll approved s t now st e k h = (
    e,
    subst (λ key. NoneApproved key (consume_approved_session v t now st).2.sessions) k
        (consumed t now st h),
  )

  expire_cases :
      (s : Session) (now : ℕ) (st : Store T)
      → (expire_if_needed v s now st ≡ (none, s, st))
        ⊎ ((e : CliError) × ((expire_if_needed v s now st).0 ≡ some e))
  unfolding expire_if_needed
  expire_cases s now st = elim (Bool-cases (has_run_out v s now)) [
    | inr e ↦ inl (rw e refl)
    | inl e ↦
        elim (Option-cases (update_sessions v expire (pending_id s.id) (set_expired v) st).0) [
          | inl f ↦ inr (session_expired, rw (e, f, expire_if_needed) refl)
          | inr q ↦ inr (q.0, rw (e, q.1, expire_if_needed) refl)
        ]
  ]

  running_poll :
      (s : Session) (now : ℕ) (st : Store T)
      → (poll_running v s now st).1 ≡ none
      → (s.status ≡ approved) × NoneApproved s.id (poll_running v s now st).2.sessions
  unfolding poll_running update_sessions
  running_poll s now st h = elim (Bool-cases (polls_too_fast v s now)) [
    | inl f ↦ cc (rw (f, poll_running) at h)
    | inr f ↦ elim (Option-cases (v.fails touch)) [
      | inr q ↦ cc (rw (f, poll_running, q.1, update_sessions) at h)
      | inl g ↦
          let st' : Store T = record st {
            sessions = update_where (λ (r : Session). r.id == s.id) (touched v now) st.sessions;
          } in
          rw (f, g, poll_running, update_sessions)
            (status_poll s.status s (touched v now s) now st' refl refl
              (rw (f, g, poll_running, update_sessions) at h))
    ]
  ]

  loaded_poll :
      (s : Session) (now : ℕ) (st : Store T)
      → (poll_loaded v s now st).1 ≡ none
      → (s.status ≡ approved) × NoneApproved s.id (poll_loaded v s now st).2.sessions
  unfolding poll_loaded
  loaded_poll s now st h = elim (expire_cases s now st) [
    | inr q ↦ cc (rw (q.1, poll_loaded) at h)
    | inl e ↦
        let same : poll_running v s now st ≡ poll_loaded v s now st =
          sym (ap (poll_checked v now) e) in
        subst
          (λ (p : PollAnswer T).
            p.1 ≡ none → (s.status ≡ approved) × NoneApproved s.id p.2.sessions)
          same (running_poll s now st) h
  ]

  -- A poll that ends without an error found an approved session, and leaves no session of its id
  -- approved.
  pub poll_session-HandedOut :
      (code : String) (now : ℕ) (st : Store T)
      → (poll_session v code now st).1 ≡ none
      → HandedOut code st (poll_session v code now st).2
  unfolding poll_session
  poll_session-HandedOut code now st h = elim (Result-cases (session_by_device_code v code st)) [
    | inl q ↦ cc (rw (q.1, poll_session) at h)
    | inr q ↦
        rw (q.1, poll_session)
          (let l = loaded_poll q.0 now st (rw (q.1, poll_session) at h) in (q.0, refl, l.0, l.1))
  ]
