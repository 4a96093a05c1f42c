-- ===== src/Auth/Steps.antt =====
-- What may happen to users and sessions, and what none of it brings about.
use task_harbor.Base.{
  ℕ, ◌≤◌, ◌≡◌, ap, subst, Bool, true, false, not, Option, List, [], ◌∷◌, ok, arith, inl, inr,
  list_eq, ◌⊎◌, ◌==◌, bit,
}
use task_harbor.Clock.{Time}
use task_harbor.Core.{Text}
use task_harbor.Sql.{count_rows, update_rows, select_rows, insert_row}
use task_harbor.Sql.Counts.{count_rows-update_le, count_rows-insert}
use task_harbor.Auth.{
  AuthDb, SessionEntry, UserCredentials, SessionRecord, configure_owner, create_session,
  active_session, revoke_session, rotate_session_csrf, purge_expired_sessions, new_session, revoke,
  unrevoked_of, is_open_session, is_current, is_stale, owner_user_id,
}

-- What happens to users and sessions, where no new session gets the token: the tokens are random.
pub data AuthStep (token : List ℕ) (s : AuthDb) : AuthDb → Type 0 where
  configures :
      (s' : AuthDb) (username password_hash : Text) (now : Time) (c : UserCredentials)
      → configure_owner s username password_hash now ≡ ok (c, s')
      → AuthStep token s s'
  opens :
      (s' : AuthDb) (id user_id : ℕ) (token' csrf : List ℕ) (ttl : ℕ) (now : Time)
      (r : SessionRecord)
      → list_eq token' token ≡ false
      → create_session s id user_id token' csrf ttl now ≡ ok (r, s')
      → AuthStep token s s'
  uses :
      (s' : AuthDb) (token' : List ℕ) (now : Time) (r : Option SessionRecord)
      → active_session s token' now ≡ ok (r, s')
      → AuthStep token s s'
  revokes :
      (s' : AuthDb) (session_id : ℕ) (now : Time)
      → revoke_session s session_id now ≡ ok (tt, s')
      → AuthStep token s s'
  rotates :
      (s' : AuthDb) (session_id : ℕ) (csrf : List ℕ) (now : Time)
      → rotate_session_csrf s session_id csrf now ≡ ok (tt, s')
      → AuthStep token s s'
  purges :
      (s' : AuthDb) (now : Time) (n : ℕ)
      → purge_expired_sessions s now ≡ ok (n, s')
      → AuthStep token s s'

pub data AuthReach (token : List ℕ) (start : AuthDb) : AuthDb → Type 0 where
  here : AuthReach token start start
  next : {s u : AuthDb} → AuthReach token start s → AuthStep token s u → AuthReach token start u

count_rows-select_le {ℓ} :
    {A : Type ℓ} (p q : A → Bool) (xs : List A) → count_rows p (select_rows q xs) ≤ count_rows p xs
unfolding count_rows select_rows
count_rows-select_le p q [] = omega arith
count_rows-select_le p q (x ∷ xs) = ground (arith, count_rows-select_le p q xs)

-- SET of a session that is used, and of one whose CSRF token is rotated.
abbrev pub seen : Time → SessionEntry → SessionEntry
seen now x = record x { last_seen_at = now }

abbrev pub rotated : List ℕ → Time → SessionEntry → SessionEntry
rotated csrf now x = record x { csrf_token_hash = csrf; last_seen_at = now }

-- The sessions that a successful call leaves.
pub configure_owner-effect :
    (s s' : AuthDb) (name hash : Text) (now : Time) (c : UserCredentials)
    → configure_owner s name hash now ≡ ok (c, s')
    → (update_rows (unrevoked_of owner_user_id) (revoke now) s.sessions ≡ s'.sessions)
      ⊎ (s.sessions ≡ s'.sessions)
unfolding configure_owner
configure_owner-effect s s' name hash now c e = ground arith

create_session-effect :
    (s s' : AuthDb) (id user : ℕ) (token csrf : List ℕ) (ttl : ℕ) (now : Time) (r : SessionRecord)
    → create_session s id user token csrf ttl now ≡ ok (r, s')
    → insert_row (new_session id user token csrf ttl now) s.sessions ≡ s'.sessions
unfolding create_session
create_session-effect s s' id user token csrf ttl now r e = ground arith

active_session-effect :
    (s s' : AuthDb) (token : List ℕ) (now : Time) (r : Option SessionRecord)
    → active_session s token now ≡ ok (r, s')
    → (update_rows (is_open_session s.users token now) (seen now) s.sessions ≡ s'.sessions)
      ⊎ (s.sessions ≡ s'.sessions)
unfolding active_session
active_session-effect s s' token now r e = ground arith

pub revoke_session-effect :
    (s s' : AuthDb) (id : ℕ) (now : Time)
    → revoke_session s id now ≡ ok (tt, s')
    → update_rows (λ x. x.id == id) (revoke now) s.sessions ≡ s'.sessions
unfolding revoke_session
revoke_session-effect s s' id now e = ground arith

rotate_session_csrf-effect :
    (s s' : AuthDb) (id : ℕ) (csrf : List ℕ) (now : Time)
    → rotate_session_csrf s id csrf now ≡ ok (tt, s')
    → update_rows (is_current id now) (rotated csrf now) s.sessions ≡ s'.sessions
unfolding rotate_session_csrf
rotate_session_csrf-effect s s' id csrf now e = ground arith

purge-effect :
    (s s' : AuthDb) (now : Time) (n : ℕ)
    → purge_expired_sessions s now ≡ ok (n, s')
    → select_rows (λ x. not (is_stale now x)) s.sessions ≡ s'.sessions
unfolding purge_expired_sessions
purge-effect s s' now n e = ground arith

-- A kind of sessions that no step brings about: neither a change of a session nor a new one.
module _ (token : List ℕ) (q : SessionEntry → Bool)
    (on_revoke : (now : Time) (x : SessionEntry) → q (revoke now x) ≡ true → q x ≡ true)
    (on_use : (now : Time) (x : SessionEntry) → q (seen now x) ≡ true → q x ≡ true)
    (on_rotate : (csrf : List ℕ) (now : Time) (x : SessionEntry)
      → q (rotated csrf now x) ≡ true
      → q x ≡ true)
    (on_new : (id user : ℕ) (token' csrf : List ℕ) (ttl : ℕ) (now : Time)
      → list_eq token' token ≡ false
      → q (new_session id user token' csrf ttl now) ≡ false) where
  abbrev Without : List SessionEntry → Type 0
  Without l = count_rows q l ≡ 0

  update-Without :
      (p : SessionEntry → Bool) (f : SessionEntry → SessionEntry) (before : List SessionEntry)
      → ((x : SessionEntry) → q (f x) ≡ true → q x ≡ true)
      → Without before
      → Without (update_rows p f before)
  update-Without p f before h g = omega (arith, count_rows-update_le p q f (λ x _. h x) before)

  AuthStep-Without : {s u : AuthDb} → AuthStep token s u → Without s.sessions → Without u.sessions
  AuthStep-Without {s} (configures u name hash now c e) g =
      elim (configure_owner-effect s u name hash now c e) [
        | inl same ↦ subst Without same (update-Without _ (revoke now) s.sessions (on_revoke now) g)
        | inr same ↦ subst Without same g
      ]
  AuthStep-Without {s} (opens u id user token' csrf ttl now r fresh e) g =
      let row = new_session id user token' csrf ttl now in
      subst Without (create_session-effect s u id user token' csrf ttl now r e) (
        omega (
          arith,
          count_rows-insert q row s.sessions,
          ap bit (on_new id user token' csrf ttl now fresh),
        ))
  AuthStep-Without {s} (uses u token' now r e) g = elim (active_session-effect s u token' now r e) [
    | inl same ↦ subst Without same (update-Without _ (seen now) s.sessions (on_use now) g)
    | inr same ↦ subst Without same g
  ]
  AuthStep-Without {s} (revokes u id now e) g =
      subst Without (revoke_session-effect s u id now e)
        (update-Without _ (revoke now) s.sessions (on_revoke now) g)
  AuthStep-Without {s} (rotates u id csrf now e) g =
      subst Without (rotate_session_csrf-effect s u id csrf now e)
        (update-Without _ (rotated csrf now) s.sessions (on_rotate csrf now) g)
  AuthStep-Without {s} (purges u now n e) g =
      subst Without (purge-effect s u now n e)
        (omega (arith, count_rows-select_le q (λ x. not (is_stale now x)) s.sessions))

  pub AuthReach-Without :
      {s u : AuthDb} → AuthReach token s u → Without s.sessions → Without u.sessions
  AuthReach-Without here g = g
  AuthReach-Without (next r st) g = AuthStep-Without st (AuthReach-Without r g)
