-- ===== src/Auth/Sessions.antt =====
-- What a session is good for: not after it was revoked.
use mathlib.Core.Option
use task_harbor.Base.{
  ℕ, ◌≤◌, ◌≡◌, ◌∙◌, refl, sym, ap, subst, Bool, true, ◌&&◌, not, Option, none, some, List, [], ◌∷◌,
  ok, arith, inl, inr, Bool-cases, Option-cases, list_eq, is_some, length, ◌==◌, All,
}
use task_harbor.Clock.{Time}
use task_harbor.Sql.{count_rows, update_rows, select_rows, find_row}
use task_harbor.Safety.Witness.{find_row_count, find_row_unique}
use task_harbor.Auth.{
  AuthDb, SessionEntry, UserEntry, SessionRecord, active_session, revoke_session,
  purge_expired_sessions, revoke, session_record, is_open_session, is_stale, active_user,
}
use task_harbor.Auth.Steps.{AuthReach, here, next, uses, AuthReach-Without, revoke_session-effect}

-- A session that was not revoked, of a token.
abbrev pub unrevoked : List ℕ → SessionEntry → Bool
unrevoked token s = list_eq s.token_hash token && not (is_some s.revoked_at)

abbrev pub has_token_hash : List ℕ → SessionEntry → Bool
has_token_hash token s = list_eq s.token_hash token

-- A session of a token, under another identifier.
abbrev other_id : List ℕ → ℕ → SessionEntry → Bool
other_id token i s = list_eq s.token_hash token && not (s.id == i)

abbrev Gone : List ℕ → AuthDb → Type 0
Gone token s = count_rows (unrevoked token) s.sessions ≡ 0

AuthReach-Gone : (token : List ℕ) {s u : AuthDb} → AuthReach token s u → Gone token s → Gone token u
AuthReach-Gone token r g =
    AuthReach-Without token (unrevoked token) (λ now x h. ground arith) (λ now x h. h)
      (λ csrf now x h. h) (λ id user token' csrf ttl now fresh. ap (λ b. b && true) fresh) r g

AuthReach-one_id :
    (token : List ℕ) (i : ℕ) {s u : AuthDb}
    → AuthReach token s u
    → count_rows (other_id token i) s.sessions ≡ 0
    → count_rows (other_id token i) u.sessions ≡ 0
AuthReach-one_id token i r g =
    AuthReach-Without token (other_id token i) (λ now x h. h) (λ now x h. h) (λ csrf now x h. h)
      (λ id user token' csrf ttl now fresh. ap (λ b. b && not (id == i)) fresh) r g

one_id :
    (token : List ℕ) (x : SessionEntry) (xs : List SessionEntry)
    → All (λ y. has_token_hash token y ≡ true → y ≡ x) xs
    → count_rows (other_id token x.id) xs ≡ 0
unfolding count_rows
one_id token x [] h = refl
one_id token x (y ∷ ys) h = elim (Bool-cases (list_eq y.token_hash token)) [
  | inl t ↦
      let same = ap (λ (z : SessionEntry). z.id) (h.0 t) in ground (arith, one_id token x ys h.1)
  | inr t ↦ ground (arith, one_id token x ys h.1)
]

-- After all sessions of an identifier are revoked.
revoked-Gone :
    (token : List ℕ) (i : ℕ) (now : Time) (xs : List SessionEntry)
    → count_rows (other_id token i) xs ≡ 0
    → count_rows (unrevoked token) (update_rows (λ x. x.id == i) (revoke now) xs) ≡ 0
unfolding count_rows update_rows
revoked-Gone token i now [] h = refl
revoked-Gone token i now (x ∷ xs) h = ground (arith, revoked-Gone token i now xs)

-- Where all sessions of a token are revoked, the token opens none.
Gone-refused :
    (token : List ℕ) (s : AuthDb) (now : Time)
    → length token ≡ 32
    → Gone token s
    → active_session s token now ≡ ok (none, s)
unfolding active_session
Gone-refused token s now long g =
    elim (Option-cases (find_row (is_open_session s.users token now) s.sessions)) [
      | inl none_open ↦ rw (none_open, active_session) (ground arith)
      | inr (x, found) ↦ absurd (
          omega (
            arith,
            find_row_count (is_open_session s.users token now) (unrevoked token)
                (λ x h. opened x s.users token now h) s.sessions x found,
          ))
    ]
  where
    opened :
        (x : SessionEntry) (users : List UserEntry) (token : List ℕ) (now : Time)
        → is_open_session users token now x ≡ true
        → unrevoked token x ≡ true
    opened x users token now h = ground arith

open_token :
    (y : SessionEntry) (users : List UserEntry) (token : List ℕ) (now : Time)
    → is_open_session users token now y ≡ true
    → has_token_hash token y ≡ true
unfolding is_open_session
open_token y users token now h = ground arith

found_session :
    (s s' : AuthDb) (token : List ℕ) (now : Time) (r : SessionRecord)
    → active_session s token now ≡ ok (some r, s')
    → (x : SessionEntry) × (find_row (is_open_session s.users token now) s.sessions ≡ some x)
      × (x.id ≡ r.id)
      × (length token ≡ 32)
unfolding active_session
found_session s s' token now r e =
    elim (Option-cases (find_row (is_open_session s.users token now) s.sessions)) [
      | inl none_open ↦ absurd (ground arith)
      | inr (x, found) ↦ (x, found, ground arith, ground arith)
    ]

-- A token has opened a session, and its hash stood in one row at most. Behind a logout of that session
-- the token opens none, at any later time and whatever else happens to users and sessions before and
-- after the logout, where no new session gets the same token.
pub logout_ends_session :
    (token : List ℕ) (s : AuthDb) {used left out later : AuthDb} (r : SessionRecord)
    (now logout_at at : Time)
    → count_rows (has_token_hash token) s.sessions ≤ 1
    → active_session s token now ≡ ok (some r, used)
    → AuthReach token used left
    → revoke_session left r.id logout_at ≡ ok (tt, out)
    → AuthReach token out later
    → active_session later token at ≡ ok (none, later)
logout_ends_session token s {used} {left} {out} {later} r now logout_at at unique opened before
      logged after =
    let (x, found, same, long) = found_session s used token now r opened in
    let only = one_id token x s.sessions (
      find_row_unique (is_open_session s.users token now) (has_token_hash token)
        (λ y h. open_token y s.users token now h) s.sessions x unique found) in
    let only' = AuthReach-one_id token r.id before (
      AuthReach-one_id token r.id (next here (uses used token now (some r) opened))
        (subst (λ i. count_rows (other_id token i) s.sessions ≡ 0) same only)) in
    Gone-refused token later at long (
      AuthReach-Gone token after (
        subst (λ l. count_rows (unrevoked token) l ≡ 0)
          (revoke_session-effect left out r.id logout_at logged)
          (revoked-Gone token r.id logout_at left.sessions only')))

find_row-select {ℓ} :
    {A : Type ℓ} (p q : A → Bool)
    → ((x : A) → p x ≡ true → q x ≡ true)
    → (xs : List A) → find_row p (select_rows q xs) ≡ find_row p xs
unfolding find_row select_rows
find_row-select p q h [] = refl
find_row-select p q h (x ∷ xs) = ground (arith, h x, find_row-select p q h xs)

open_fresh :
    (x : SessionEntry) (users : List UserEntry) (token : List ℕ) (before now : Time)
    → before ≤ now
    → is_open_session users token now x ≡ true
    → not (is_stale before x) ≡ true
unfolding is_open_session
open_fresh x users token before now h k = ground arith

-- The record for what is found.
record_of : List UserEntry → Option SessionEntry → Option SessionRecord
record_of users none = none
record_of users (some x) =
    Option.map (λ account. session_record account.username x)
      (find_row (active_user x.user_id) users)

active_session-record :
    (s u : AuthDb) (token : List ℕ) (now : Time) (r : Option SessionRecord)
    → active_session s token now ≡ ok (r, u)
    → (length token ≡ 32)
      × (record_of s.users (find_row (is_open_session s.users token now) s.sessions) ≡ r)
unfolding active_session record_of
active_session-record s u token now r e = ground arith

answers_32 :
    (s : AuthDb) (token : List ℕ) (now : Time)
    → length token ≡ 32
    → (u : AuthDb) × (active_session s token now
        ≡ ok (record_of s.users (find_row (is_open_session s.users token now) s.sessions), u))
unfolding active_session record_of
answers_32 s token now long =
    let ok_length : (length token == 32) ≡ true = ground arith in
    elim (Option-cases (find_row (is_open_session s.users token now) s.sessions)) [
      | inl e ↦ (s, rw (ok_length, e, active_session) refl)
      | inr (x, e) ↦ elim (Option-cases (find_row (active_user x.user_id) s.users)) [
        | inl f ↦ (s, rw (ok_length, e, f, active_session) refl)
        | inr (account, f) ↦ (
          record s {
            sessions =
                update_rows (is_open_session s.users token now)
                  (λ s. record s { last_seen_at = now }) s.sessions;
          },
          rw (ok_length, e, f, active_session) refl,
        )
      ]
    ]

purge-left :
    (s purged : AuthDb) (n : ℕ) (before : Time)
    → purge_expired_sessions s before ≡ ok (n, purged)
    → record s { sessions = select_rows (λ x. not (is_stale before x)) s.sessions } ≡ purged
unfolding purge_expired_sessions
purge-left s purged n before e = ground arith

-- A purge of sessions takes away no session that is good at its time or later: a token opens behind
-- it what it opened before.
pub purge-keeps_open :
    (s purged : AuthDb) (n : ℕ) (token : List ℕ) (before now : Time) (r : Option SessionRecord)
    (u : AuthDb)
    → purge_expired_sessions s before ≡ ok (n, purged)
    → before ≤ now
    → active_session s token now ≡ ok (r, u)
    → (u' : AuthDb) × (active_session purged token now ≡ ok (r, u'))
purge-keeps_open s purged n token before now r u e h opened =
    let left = purge-left s purged n before e in
    let found : find_row (is_open_session s.users token now) s.sessions
        ≡ find_row (is_open_session purged.users token now) purged.sessions =
      rw (← left) (
        sym (
          find_row-select (is_open_session s.users token now) (λ x. not (is_stale before x))
            (λ x k. open_fresh x s.users token before now h k) s.sessions)) in
    let known = active_session-record s u token now r opened in
    let (u', answer) = answers_32 purged token now known.0 in
    let users = ap (λ (z : AuthDb). z.users) (sym left) in
    (
      u',
      answer
          ∙ ap (λ o. ok (o, u'))
              (ap (record_of purged.users) (sym found)
                ∙ ap (λ l. record_of l (find_row (is_open_session s.users token now) s.sessions))
                    users
                ∙ known.1),
    )
