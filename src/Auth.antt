-- ===== src/Auth.antt =====
-- Users and sessions (crates/adapters/src/auth_repository.rs). `now` is CURRENT_TIMESTAMP; the
-- random identifier of a session is an argument. A hash is a list of bytes. The rows of the tables
-- meet their CHECK constraints and foreign key, so that they decode.
pub mod Steps
pub mod Sessions
pub mod Names
pub mod Compare
use task_harbor.Base.{
  ℕ, ◌+◌, ◌-◌, ◌*◌, ◌/◌, ◌%◌, Bool, true, false, ◌&&◌, ◌||◌, not, Option, none, some, List, [], ◌∷◌,
  Result, ok, err, database, invalid_data, state_conflict, guard, ok_or, ensure_one_row, ◌>>=◌,
  ◌>>◌, ltb, leb, ◌==◌, list_eq, is_some, coalesce, if◌then◌else◌, length,
}
use task_harbor.Clock.{Time, second, plus_seconds}
use task_harbor.Core.{Text, i64_max, is_empty, byte_length}
use task_harbor.Sql.{count_rows, update_rows, select_rows, find_row, insert_row}

-- `OWNER_USER_ID`.
abbrev pub owner_user_id : ℕ
owner_user_id = 1

abbrev pub min_session_ttl : ℕ
min_session_ttl = 5 * 60 * second

abbrev pub max_session_ttl : ℕ
max_session_ttl = 7 * 24 * 60 * 60 * second

-- `UserId::new`; the type has no negative numbers here.
unfoldable pub new_user_id : ℕ → Result ℕ
new_user_id value =
    guard (not (value == 0)) (invalid_data "user ID must be a positive BIGINT") >> ok value

pub record UserEntry : Type 0 where
  pub id : ℕ
  pub username : Text
  pub password_hash : Text
  pub is_active : Bool
  pub updated_at : Time

pub record SessionEntry : Type 0 where
  pub id : ℕ
  pub user_id : ℕ
  pub token_hash : List ℕ
  pub csrf_token_hash : List ℕ
  pub created_at : Time
  pub last_seen_at : Time
  pub expires_at : Time
  pub revoked_at : Option Time

pub record AuthDb : Type 0 where
  pub users : List UserEntry
  pub sessions : List SessionEntry

pub record UserCredentials : Type 0 where
  pub id : ℕ
  pub username : Text
  pub password_hash : Text

pub record SessionRecord : Type 0 where
  pub id : ℕ
  pub user_id : ℕ
  pub username : Text
  pub csrf_token_hash : List ℕ
  pub expires_at : Time

abbrev pub AuthTx : Type 0 → Type 0
AuthTx A = Result (A × AuthDb)

-- `UserCredentials::try_from`.
unfoldable pub credentials : UserEntry → Result UserCredentials
unfolding new_user_id
credentials u = do
  id ← new_user_id u.id
  ok (record { id = id; username = u.username; password_hash = u.password_hash })

-- `row.map(TryInto::try_into).transpose()`.
abbrev pub optional_credentials : Option UserEntry → Result (Option UserCredentials)
optional_credentials none = ok none
optional_credentials (some u) = credentials u >>= λ c. ok (some c)

-- WHERE id = $1 AND is_active.
abbrev pub active_user : ℕ → UserEntry → Bool
active_user id u = u.id == id && u.is_active

-- `user_credentials_by_id`, `owner_credentials` and `user_credentials_by_username`.
unfoldable pub user_credentials_by_id : AuthDb → ℕ → Result (Option UserCredentials)
unfolding credentials
user_credentials_by_id db user_id = optional_credentials (find_row (active_user user_id) db.users)

unfoldable pub owner_credentials : AuthDb → Result UserCredentials
unfolding user_credentials_by_id
owner_credentials db = user_credentials_by_id db owner_user_id >>= λ found.
    ok_or found (invalid_data "bootstrap owner is missing")

unfoldable pub user_credentials_by_username : AuthDb → Text → Result (Option UserCredentials)
unfolding credentials
user_credentials_by_username db username =
    optional_credentials (find_row (λ u. list_eq u.username username && u.is_active) db.users)

-- The characters of a user name, the first one apart.
unfoldable pub is_name_start : ℕ → Bool
is_name_start c = leb b'a' c && leb c b'z' || leb b'0' c && leb c b'9'

unfoldable pub are_name_rest : Text → Bool
unfolding is_name_start
are_name_rest [] = true
are_name_rest (c ∷ cs) = (is_name_start c || (c == b'_' || c == b'-')) && are_name_rest cs

unfoldable pub are_name_characters : Text → Bool
unfolding is_name_start are_name_rest
are_name_characters [] = true
are_name_characters (c ∷ cs) = is_name_start c && are_name_rest cs

unfoldable pub validate_username : Text → Result (Unit {0})
unfolding are_name_characters
validate_username username =
    guard
      (not (
        not (leb 3 (byte_length username) && leb (byte_length username) 32)
        || not (are_name_characters username)))
      (invalid_data "username must contain 3-32 lowercase letters, digits, hyphens, or underscores")

unfoldable pub validate_digest : List ℕ → Result (Unit {0})
validate_digest value = guard (length value == 32) (invalid_data "hash must contain 32 bytes")

-- SET revoked_at = COALESCE(revoked_at, CURRENT_TIMESTAMP).
abbrev pub revoke : Time → SessionEntry → SessionEntry
revoke now s = record s { revoked_at = some (coalesce s.revoked_at now) }

abbrev pub unrevoked_of : ℕ → SessionEntry → Bool
unrevoked_of user_id s = s.user_id == user_id && not (is_some s.revoked_at)

abbrev pub set_credentials : Text → Text → Time → UserEntry → UserEntry
set_credentials username password_hash now u = record u {
  username = username;
  password_hash = password_hash;
  updated_at = now;
}

-- The length of the hash is tested in bytes. The UPDATE finds the row that was locked; the name of
-- another user is refused by UNIQUE.
unfoldable pub configure_owner :
    AuthDb → (username password_hash : Text) (now : Time) → AuthTx UserCredentials
unfolding validate_username credentials
configure_owner db username password_hash now = do
  validate_username username
  guard (not (is_empty password_hash || ltb 512 (byte_length password_hash)))
      (invalid_data "password hash length is invalid")
  previous ←
      ok_or (find_row (λ u. u.id == owner_user_id) db.users)
        (invalid_data "bootstrap owner is missing")
  let changed =
      not (list_eq previous.username username) || not (list_eq previous.password_hash password_hash)
  guard (count_rows (λ u. list_eq u.username username && not (u.id == owner_user_id)) db.users == 0)
      database
  updated ← credentials (set_credentials username password_hash now previous)
  ok (
    updated,
    record {
      users =
          update_rows (λ u. u.id == owner_user_id) (set_credentials username password_hash now)
            db.users;
      sessions =
          (if changed
            then update_rows (unrevoked_of owner_user_id) (revoke now) db.sessions
            else db.sessions);
    },
  )

abbrev pub session_record : Text → SessionEntry → SessionRecord
session_record username s = record {
  id = s.id;
  user_id = s.user_id;
  username = username;
  csrf_token_hash = s.csrf_token_hash;
  expires_at = s.expires_at;
}

abbrev pub new_session :
    (id user_id : ℕ) (token_hash csrf_token_hash : List ℕ) (ttl : ℕ) (now : Time) → SessionEntry
new_session id user_id token_hash csrf_token_hash ttl now = record {
  id = id;
  user_id = user_id;
  token_hash = token_hash;
  csrf_token_hash = csrf_token_hash;
  created_at = now;
  last_seen_at = now;
  expires_at = plus_seconds now (ttl / second);
  revoked_at = none;
}

-- `ttl` is in nanoseconds.
unfoldable pub create_session :
    AuthDb
    → (id user_id : ℕ) (token_hash csrf_token_hash : List ℕ) (ttl : ℕ) (now : Time)
    → AuthTx SessionRecord
unfolding validate_digest
create_session db id user_id token_hash csrf_token_hash ttl now = do
  validate_digest token_hash
  validate_digest csrf_token_hash
  guard (leb min_session_ttl ttl && leb ttl max_session_ttl && ttl % second == 0)
      (invalid_data "session TTL must be a whole number of seconds in the range")
  guard (leb (ttl / second) i64_max) (invalid_data "session TTL exceeds BIGINT")
  account ←
      ok_or (find_row (active_user user_id) db.users)
        (state_conflict "create session for inactive user")
  -- the primary key and UNIQUE of the token's hash
  guard (count_rows (λ s. s.id == id) db.sessions == 0) database
  guard (count_rows (λ s. list_eq s.token_hash token_hash) db.sessions == 0) database
  let row = new_session id user_id token_hash csrf_token_hash ttl now
  ok (session_record account.username row, record db { sessions = insert_row row db.sessions })

-- WHERE of the session that a token opens, and its join with the account.
abbrev pub is_open : List ℕ → Time → SessionEntry → Bool
is_open token_hash now s =
    list_eq s.token_hash token_hash && (not (is_some s.revoked_at) && ltb now s.expires_at)

unfoldable pub is_open_session : List UserEntry → List ℕ → Time → SessionEntry → Bool
is_open_session users token_hash now s =
    is_open token_hash now s && not (count_rows (active_user s.user_id) users == 0)

unfoldable pub active_session :
    AuthDb → (token_hash : List ℕ) (now : Time) → AuthTx (Option SessionRecord)
unfolding validate_digest is_open_session
active_session db token_hash now =
    validate_digest token_hash
    >> elim (find_row (is_open_session db.users token_hash now) db.sessions) [
      | none ↦ ok (none, db)
      | some s ↦ elim (find_row (active_user s.user_id) db.users) [
        | none ↦ ok (none, db)
        | some account ↦ ok (
          some (session_record account.username s),
          record db {
            sessions =
                update_rows (is_open_session db.users token_hash now)
                  (λ s. record s { last_seen_at = now }) db.sessions;
          },
        )
      ]
    ]

unfoldable pub revoke_session : AuthDb → (session_id : ℕ) (now : Time) → AuthTx (Unit {0})
revoke_session db session_id now = do
  ensure_one_row (count_rows (λ s. s.id == session_id) db.sessions) "revoke session"
  ok (tt, record db { sessions = update_rows (λ s. s.id == session_id) (revoke now) db.sessions })

abbrev pub is_current : ℕ → Time → SessionEntry → Bool
is_current session_id now s =
    s.id == session_id && (not (is_some s.revoked_at) && ltb now s.expires_at)

unfoldable pub rotate_session_csrf :
    AuthDb → (session_id : ℕ) (csrf_token_hash : List ℕ) (now : Time) → AuthTx (Unit {0})
unfolding validate_digest
rotate_session_csrf db session_id csrf_token_hash now = do
  validate_digest csrf_token_hash
  ensure_one_row (count_rows (is_current session_id now) db.sessions) "rotate session CSRF token"
  ok (
    tt,
    record db {
      sessions =
          update_rows (is_current session_id now)
            (λ s. record s { csrf_token_hash = csrf_token_hash; last_seen_at = now }) db.sessions;
    },
  )

abbrev pub one_day : ℕ
one_day = 86400 * second

-- revoked_at <= CURRENT_TIMESTAMP - INTERVAL '1 day'.
abbrev pub revoked_before : Option Time → Time → Bool
revoked_before none now = false
revoked_before (some t) now = leb (t + one_day) now

abbrev pub is_stale : Time → SessionEntry → Bool
is_stale now s = leb s.expires_at now || revoked_before s.revoked_at now

-- The rows that a DELETE leaves, and their number before and after.
unfoldable pub purge_expired_sessions : AuthDb → (now : Time) → AuthTx ℕ
purge_expired_sessions db now = ok (
  count_rows (is_stale now) db.sessions,
  record db { sessions = select_rows (λ s. not (is_stale now s)) db.sessions },
)
