-- ===== src/Examples/Access.antt =====
-- The theorems on sessions and requests, for an owner with one session.
use task_harbor.Base.{
  ℕ, ◌≡◌, ◌↔◌, ◌⊎◌, refl, inr, Bool, true, Option, some, none, List, [], ◌∷◌, All, map, ok, arith,
  ◌%◌, ◌<◌, list_eq,
}
use task_harbor.Core.{Text, accepted, trim, trim_start, is_whitespace, codes, byte_length}
use task_harbor.Sql.{count_rows, update_rows, select_rows, find_row}
use task_harbor.Auth.{
  AuthDb, AuthTx, SessionEntry, SessionRecord, active_session, revoke_session,
  purge_expired_sessions, validate_username, is_open_session, session_record, validate_digest,
  are_name_characters, are_name_rest, is_name_start,
}
use task_harbor.Auth.Names.{normalize_username, ascii_lower, normalize_username-validates}
use task_harbor.Auth.Compare.{constant_time_eq, constant_time_eq-equality}
use task_harbor.Auth.Steps.{here}
use task_harbor.Auth.Sessions.{logout_ends_session, purge-keeps_open}
use task_harbor.Api.Access.{ApiRequest, get, head, options, post, require_auth}
use task_harbor.Api.Guard.{require_auth-passes}

abbrev byte_string : ℕ → List ℕ
byte_string b =
    b ∷ b ∷ b ∷ b ∷ b ∷ b ∷ b ∷ b ∷ b ∷ b ∷ b ∷ b ∷ b ∷ b ∷ b ∷ b ∷ b ∷ b ∷ b ∷ b ∷ b ∷ b ∷ b ∷ b
    ∷ b ∷ b ∷ b ∷ b ∷ b ∷ b ∷ b ∷ b ∷ []

abbrev session : SessionEntry
session = record {
  id = 9;
  user_id = 1;
  token_hash = byte_string 3;
  csrf_token_hash = byte_string 4;
  created_at = 100;
  last_seen_at = 100;
  expires_at = 900;
  revoked_at = none;
}

abbrev owner_db : AuthDb
owner_db = record {
  users =
      record {
        id = 1;
        username = codes "owner";
        password_hash = codes "hash";
        is_active = true;
        updated_at = 50;
      }
      ∷ [];
  sessions = session ∷ [];
}

abbrev after : {A : Type 0} → AuthDb → AuthTx A → AuthDb
after db (ok (a, db')) = db'
after db _ = db

abbrev record_here : SessionRecord
record_here = session_record (codes "owner") session

abbrev used : AuthDb
used = after owner_db (active_session owner_db (byte_string 3) 200)

abbrev signed_out : AuthDb
signed_out = after used (revoke_session used 9 300)

logout_ends_session_example : active_session signed_out (byte_string 3) 400 ≡ ok (none, signed_out)
unfolding active_session revoke_session is_open_session validate_digest find_row count_rows
    update_rows list_eq
logout_ends_session_example =
    logout_ends_session (byte_string 3) owner_db record_here 200 300 400 (omega arith) refl here
      refl here

abbrev purged : AuthDb
purged = after owner_db (purge_expired_sessions owner_db 150)

purge-keeps_open_example :
    (u' : AuthDb) × (active_session purged (byte_string 3) 200 ≡ ok (some record_here, u'))
unfolding active_session purge_expired_sessions is_open_session validate_digest find_row count_rows
    update_rows select_rows list_eq
purge-keeps_open_example =
    purge-keeps_open owner_db purged 0 (byte_string 3) 150 200 (some record_here) used refl
      (omega arith) refl

normalize_username-validates_example :
    (validate_username (codes "owner-1") ≡ ok tt)
    × (codes "owner-1" ≡ map ascii_lower (trim (codes " Owner-1 ")))
    × (map ascii_lower (codes "owner-1") ≡ codes "owner-1")
unfolding normalize_username ascii_lower trim trim_start is_whitespace byte_length
    are_name_characters are_name_rest is_name_start
normalize_username-validates_example =
    normalize_username-validates (codes " Owner-1 ") (codes "owner-1") refl

constant_time_eq-equality_example :
    constant_time_eq (1 ∷ 255 ∷ []) (1 ∷ 254 ∷ []) ≡ list_eq (1 ∷ 255 ∷ []) (1 ∷ 254 ∷ [])
constant_time_eq-equality_example =
    constant_time_eq-equality (1 ∷ 255 ∷ []) (1 ∷ 254 ∷ []) (omega arith) (omega arith)

-- A stand-in for the hash of a token: its first character, 32 times.
abbrev first_byte : Text → List ℕ
first_byte [] = byte_string 0
first_byte (c ∷ _) = byte_string (c % 256)

first_byte-bytes : (t : Text) → All (λ x. x < 256) (first_byte t)
first_byte-bytes [] = omega arith
first_byte-bytes (c ∷ cs) = omega arith

abbrev request : ApiRequest
request = record {
  method = post;
  session_cookie_value = some (3 ∷ []);
  csrf_cookie_value = none;
  csrf_header = some (4 ∷ []);
}

abbrev any_password : (password password_hash : Text) → Option Bool
any_password _ _ = some true

require_auth-passes_example :
    (require_auth any_password first_byte owner_db request 200 ≡ accepted (record_here, used)) ↔ (
      (raw : Text) × (request.session_cookie_value ≡ some raw)
      × (active_session owner_db (first_byte raw) 200 ≡ ok (some record_here, used))
      × ((((request.method ≡ get) ⊎ (request.method ≡ head)) ⊎ (request.method ≡ options))
          ⊎ ((supplied : Text) × (request.csrf_header ≡ some supplied)
              × (first_byte supplied ≡ record_here.csrf_token_hash))))
require_auth-passes_example =
    require_auth-passes any_password first_byte owner_db used request record_here 200
      first_byte-bytes (omega arith)

-- The request above passes.
passing : require_auth any_password first_byte owner_db request 200 ≡ accepted (record_here, used)
unfolding active_session is_open_session validate_digest find_row count_rows update_rows list_eq
passing =
    (require_auth-passes any_password first_byte owner_db used request record_here 200
        first_byte-bytes (omega arith)).1
      (3 ∷ [], refl, refl, inr (4 ∷ [], refl, refl))
