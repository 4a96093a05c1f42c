-- ===== src/Api/Access.antt =====
-- Sign-in and the check of every request (apps/api/src/auth.rs). Password hashing, SHA-256 and random
-- tokens are those of libraries: arguments here. `none` of the password check is a task that failed.
use task_harbor.Base.{
  ℕ, ◌/◌, Bool, true, false, ◌||◌, not, Option, none, some, List, [], ◌∷◌, Result, ok, err, String,
  list_eq, is_none, min, if◌then◌else◌, RepositoryError,
}
use task_harbor.Core.{Text, Checked, accepted, rejected, codes, i64_max}
use task_harbor.Clock.{Time, second}
use task_harbor.RateLimit.{Tracked, allowed, retry_after, check}
use task_harbor.Auth.{
  AuthDb, UserCredentials, SessionRecord, owner_credentials, user_credentials_by_username,
  create_session, active_session, revoke_session, rotate_session_csrf, configure_owner,
}
use task_harbor.Auth.Names.{normalize_username, validate_password}
use task_harbor.Auth.Compare.{constant_time_eq}
use task_harbor.Api.{
  ApiError, unauthorized, invalid_credentials, invalid_csrf, rate_limited, internal,
  repository_error,
}

-- `.map_err(ApiError::repository)?` and `?` of a handler.
abbrev pub and_then : {E A B : Type 0} → Checked E A → (A → Checked E B) → Checked E B
and_then (accepted a) rest = rest a
and_then (rejected e) rest = rejected e

abbrev pub from_repository : {A : Type 0} → Result A → Checked ApiError A
from_repository (ok a) = accepted a
from_repository (err e) = rejected (repository_error e)

abbrev pub ok_or_reject : {E A : Type 0} → Option A → E → Checked E A
ok_or_reject none e = rejected e
ok_or_reject (some a) e = accepted a

pub data Method : Type 0 where
  get head options post put patch delete other : Method

-- `requires_csrf`.
unfoldable pub requires_csrf : Method → Bool
requires_csrf get = false
requires_csrf head = false
requires_csrf options = false
requires_csrf _ = true

-- What the check reads of a request: the cookies of the session and of the CSRF token, and the
-- header, where it is text.
pub record ApiRequest : Type 0 where
  pub method : Method
  pub session_cookie_value : Option Text
  pub csrf_cookie_value : Option Text
  pub csrf_header : Option Text

pub record Cookie : Type 0 where
  pub name : String
  pub value : Text
  pub http_only : Bool
  pub secure : Bool
  pub max_age_seconds : ℕ

-- `cookie_duration`; the time to live is in nanoseconds.
unfoldable pub cookie_duration : ℕ → ℕ
cookie_duration value = min (value / second) i64_max

-- The paths are "/", and the cookies are for the same site only.
abbrev pub session_cookie : Text → ℕ → Bool → Cookie
session_cookie value ttl secure = record {
  name = "taskharbor_session";
  value = value;
  http_only = true;
  secure = secure;
  max_age_seconds = cookie_duration ttl;
}

abbrev pub csrf_cookie : Text → ℕ → Bool → Cookie
csrf_cookie value ttl secure = record {
  name = "taskharbor_csrf";
  value = value;
  http_only = false;
  secure = secure;
  max_age_seconds = cookie_duration ttl;
}

abbrev pub removal_cookie : String → Bool → Bool → Cookie
removal_cookie name http_only secure = record {
  name = name;
  value = [];
  http_only = http_only;
  secure = secure;
  max_age_seconds = 0;
}

pub record SessionResponse : Type 0 where
  pub user_id : ℕ
  pub username : Text
  pub expires_at : Time
  pub csrf_token : Text

-- `SessionResponse::new` and `SessionResponse::from_auth`.
abbrev pub session_response : SessionRecord → Text → SessionResponse
session_response s csrf_token = record {
  user_id = s.user_id;
  username = s.username;
  expires_at = s.expires_at;
  csrf_token = csrf_token;
}

pub data OwnerSetupError : Type 0 where
  invalid_username : OwnerSetupError
  invalid_password : OwnerSetupError
  password_hash_failed : OwnerSetupError
  repository_failed : RepositoryError → OwnerSetupError
  task_failed : OwnerSetupError

abbrev pub from_setup : {A : Type 0} → Result A → Checked OwnerSetupError A
from_setup (ok a) = accepted a
from_setup (err e) = rejected (repository_failed e)

module _ (verify_password : (password password_hash : Text) → Option Bool)
    (token_hash : Text → List ℕ) where
  -- `hashed` is what Argon2 makes of the password.
  unfoldable pub initialize_owner :
      AuthDb
      → (username password : Text) (hashed : Checked OwnerSetupError Text) (now : Time)
      → Checked OwnerSetupError (UserCredentials × AuthDb)
  initialize_owner db username password hashed now =
      and_then (ok_or_reject (normalize_username username) invalid_username) λ name.
        if not (validate_password password)
        then rejected invalid_password
        else and_then (from_setup (owner_credentials db)) λ current.
          let replace : Checked OwnerSetupError (UserCredentials × AuthDb) =
            and_then hashed (λ hash. from_setup (configure_owner db name hash now)) in
          if list_eq current.username name
          then and_then (ok_or_reject (verify_password password current.password_hash) task_failed)
              (λ same. if same then accepted (current, db) else replace)
          else replace

  -- The user of the name, if it is one, and the credentials that the password is checked against.
  unfoldable pub find_requested_user : AuthDb → Option Text → Result (Option UserCredentials)
  find_requested_user db none = ok none
  find_requested_user db (some username) = user_credentials_by_username db username

  unfoldable pub credentials_to_check : AuthDb → Option UserCredentials → Result UserCredentials
  credentials_to_check db none = owner_credentials db
  credentials_to_check db (some credentials) = ok credentials

  -- `login` behind the limiter.
  unfoldable pub sign_in :
      AuthDb
      → (username password : Text) (session_id : ℕ) (session_token csrf_token : Text) (ttl : ℕ)
        (now : Time)
      → Checked ApiError (SessionRecord × AuthDb)
  unfolding find_requested_user credentials_to_check
  sign_in db username password session_id session_token csrf_token ttl now =
      if not (validate_password password)
      then rejected invalid_credentials
      else and_then (from_repository (find_requested_user db (normalize_username username)))
          λ requested. and_then (from_repository (credentials_to_check db requested)) λ credentials.
            and_then (ok_or_reject (verify_password password credentials.password_hash) internal)
              λ password_valid.
                if is_none requested || not password_valid
                then rejected invalid_credentials
                else from_repository (
                    create_session db session_id credentials.id (token_hash session_token)
                      (token_hash csrf_token) ttl now)

  abbrev pub signed_in :
      (session_token csrf_token : Text) (ttl : ℕ) (secure : Bool)
      → SessionRecord × AuthDb
      → Checked ApiError (List Cookie × SessionResponse × AuthDb)
  signed_in session_token csrf_token ttl secure (session, db) = accepted (
    session_cookie session_token ttl secure ∷ csrf_cookie csrf_token ttl secure ∷ [],
    session_response session csrf_token,
    db,
  )

  -- `login`, with the limiter before and after it. `instant` is the time of the limiter.
  unfoldable pub login :
      (limit window : ℕ)
      → List Tracked
      → (instant : ℕ) (secure : Bool) → AuthDb
      → (username password : Text) (session_id : ℕ) (session_token csrf_token : Text) (ttl : ℕ)
        (now : Time)
      → Checked ApiError (List Cookie × SessionResponse × AuthDb) × List Tracked
  unfolding sign_in
  login limit window limiter instant secure db username password session_id session_token csrf_token
        ttl now =
      let (verdict, limiter') = check limit window limiter instant (codes "owner-login") in
      (
        elim verdict [
          | retry_after time ↦ rejected (rate_limited time)
          | allowed ↦
              and_then (sign_in db username password session_id session_token csrf_token ttl now)
                (signed_in session_token csrf_token ttl secure)
        ],
        limiter',
      )

  -- `is_some_and` of a token whose hash is compared with that of the session.
  unfoldable pub matches_csrf : Option Text → List ℕ → Bool
  matches_csrf none csrf_token_hash = false
  matches_csrf (some token) csrf_token_hash = constant_time_eq (token_hash token) csrf_token_hash

  abbrev pub value_or_empty : Option Text → Text
  value_or_empty none = []
  value_or_empty (some t) = t

  -- `current_session`: the token of the cookie if it is the session's, or a new one.
  unfoldable pub current_session :
      AuthDb
      → SessionRecord
      → ApiRequest
      → (fresh : Text) (ttl : ℕ) (secure : Bool) (now : Time)
      → Checked ApiError (Cookie × SessionResponse × AuthDb)
  unfolding matches_csrf
  current_session db session request fresh ttl secure now =
      let answer : Text → AuthDb → Cookie × SessionResponse × AuthDb =
        λ token db'. (csrf_cookie token ttl secure, session_response session token, db') in
      if matches_csrf request.csrf_cookie_value session.csrf_token_hash
      then accepted (answer (value_or_empty request.csrf_cookie_value) db)
      else and_then (from_repository (rotate_session_csrf db session.id (token_hash fresh) now))
          (λ done. accepted (answer fresh done.1))

  -- `logout`.
  unfoldable pub logout :
      AuthDb
      → SessionRecord
      → (secure : Bool) (now : Time) → Checked ApiError (List Cookie × AuthDb)
  logout db session secure now =
      and_then (from_repository (revoke_session db session.id now)) λ done. accepted (
        removal_cookie "taskharbor_session" true secure
            ∷ removal_cookie "taskharbor_csrf" false secure
            ∷ [],
        done.1,
      )

  -- `require_auth` behind `active_session`.
  unfoldable pub check_csrf :
      ApiRequest → AuthDb → Option SessionRecord → Checked ApiError (SessionRecord × AuthDb)
  check_csrf request db none = rejected unauthorized
  check_csrf request db (some session) =
      if requires_csrf request.method
      then and_then (ok_or_reject request.csrf_header invalid_csrf) (λ supplied.
        if not (constant_time_eq (token_hash supplied) session.csrf_token_hash)
        then rejected invalid_csrf
        else accepted (session, db))
      else accepted (session, db)

  -- `require_auth`: the session with which the request goes on.
  unfoldable pub require_auth :
      AuthDb → ApiRequest → (now : Time) → Checked ApiError (SessionRecord × AuthDb)
  unfolding check_csrf
  require_auth db request now =
      and_then (ok_or_reject request.session_cookie_value unauthorized) λ raw_token.
        and_then (from_repository (active_session db (token_hash raw_token) now))
          λ found. check_csrf request found.1 found.0
