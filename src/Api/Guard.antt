-- ===== src/Api/Guard.antt =====
-- Which requests pass the check of the session.
use task_harbor.Base.{
  ℕ, ◌<◌, ◌≡◌, ◌↔◌, ◌⊎◌, inl, inr, refl, sym, ◌∙◌, ap, Bool, true, false, Option, none, some, List,
  ok, list_eq, list_eq→eq, list_eq_self, arith, All, Bool-cases, Option-cases, Result-cases, subst,
}
use task_harbor.Core.{Text, accepted}
use task_harbor.Clock.{Time}
use task_harbor.Auth.{AuthDb, SessionRecord, active_session}
use task_harbor.Auth.Compare.{constant_time_eq, constant_time_eq-equality}
use task_harbor.Api.Access.{
  ApiRequest, get, head, options, post, put, patch, delete, other, Method, requires_csrf,
  require_auth, check_csrf,
}

module _ (token_hash : Text → List ℕ)
    (is_bytes : (t : Text) → All (λ x. x < 256) (token_hash t)) where
  same_hash :
      (t : Text) (hash : List ℕ)
      → All (λ x. x < 256) hash
      → (constant_time_eq (token_hash t) hash ≡ true) ↔ (token_hash t ≡ hash)
  same_hash t hash b =
      let same = constant_time_eq-equality (token_hash t) hash (is_bytes t) b in
      (
        λ e. list_eq→eq (token_hash t) hash (sym same ∙ e),
        λ e. same ∙ subst (λ h. list_eq (token_hash t) h ≡ true) e (list_eq_self (token_hash t)),
      )

  abbrev Confirmed : ApiRequest → SessionRecord → Type 0
  Confirmed request session =
      (requires_csrf request.method ≡ false)
      ⊎ ((supplied : Text) × (request.csrf_header ≡ some supplied)
          × (token_hash supplied ≡ session.csrf_token_hash))

  module _ (verify_password : (password password_hash : Text) → Option Bool) where
    check_csrf-passes :
        (request : ApiRequest) (db db' : AuthDb) (found : Option SessionRecord)
        (session : SessionRecord)
        → All (λ x. x < 256) session.csrf_token_hash
        → check_csrf verify_password token_hash request db found ≡ accepted (session, db')
        → (found ≡ some session) × (db ≡ db') × Confirmed request session
    unfolding check_csrf
    check_csrf-passes request db db' none session b e = cc
    check_csrf-passes request db db' (some s) session b e =
        elim (Bool-cases (requires_csrf request.method)) [
          | inr safe ↦ (ground arith, ground arith, inl safe)
          | inl unsafe ↦ elim (Option-cases request.csrf_header) [
            | inl missing ↦ absurd (ground arith)
            | inr (supplied, given) ↦
                let same : s ≡ session = ground arith in
                let equal : constant_time_eq (token_hash supplied) session.csrf_token_hash ≡ true =
                  rw (← same) (ground arith) in
                (
                  ground arith,
                  ground arith,
                  inr (supplied, given, (same_hash supplied session.csrf_token_hash b).0 equal),
                )
          ]
        ]

    check_csrf-Confirmed :
        (request : ApiRequest) (db : AuthDb) (session : SessionRecord)
        → All (λ x. x < 256) session.csrf_token_hash
        → Confirmed request session
        → check_csrf verify_password token_hash request db (some session) ≡ accepted (session, db)
    unfolding check_csrf
    check_csrf-Confirmed request db session b (inl safe) = rw (safe, check_csrf) refl
    check_csrf-Confirmed request db session b (inr (supplied, given, same)) =
        let equal = (same_hash supplied session.csrf_token_hash b).1 same in
        elim (Bool-cases (requires_csrf request.method)) [
          | inr safe ↦ rw (safe, check_csrf) refl
          | inl unsafe ↦ rw (unsafe, given, equal, check_csrf) refl
        ]

    passes_token :
        (db db' : AuthDb) (request : ApiRequest) (session : SessionRecord) (now : Time)
        → require_auth verify_password token_hash db request now ≡ accepted (session, db')
        → (raw : Text) × (used : AuthDb) × (found : Option SessionRecord)
          × (request.session_cookie_value ≡ some raw)
          × (active_session db (token_hash raw) now ≡ ok (found, used))
          × (check_csrf verify_password token_hash request used found ≡ accepted (session, db'))
    unfolding require_auth
    passes_token db db' request session now e = elim (Option-cases request.session_cookie_value) [
      | inl missing ↦ absurd (ground arith)
      | inr (raw, given) ↦ elim (Result-cases (active_session db (token_hash raw) now)) [
        | inl (f, failed) ↦ absurd (ground arith)
        | inr ((found, used), active) ↦ (raw, used, found, given, active, ground arith)
      ]
    ]

    passes_back :
        (db db' : AuthDb) (request : ApiRequest) (session : SessionRecord) (now : Time)
        → All (λ x. x < 256) session.csrf_token_hash
        → (raw : Text) → request.session_cookie_value ≡ some raw
        → active_session db (token_hash raw) now ≡ ok (some session, db')
        → Confirmed request session
        → require_auth verify_password token_hash db request now ≡ accepted (session, db')
    unfolding require_auth
    passes_back db db' request session now b raw given active confirmed =
        rw (given, active, require_auth) (check_csrf-Confirmed request db' session b confirmed)

-- The methods without a CSRF token.
safe_method : (m : Method) → (requires_csrf m ≡ false) ↔ (((m ≡ get) ⊎ (m ≡ head)) ⊎ (m ≡ options))
unfolding requires_csrf
safe_method get = (λ _. inl (inl refl), λ _. refl)
safe_method head = (λ _. inl (inr refl), λ _. refl)
safe_method options = (λ _. inr refl, λ _. refl)
safe_method post = ground arith
safe_method put = ground arith
safe_method patch = ground arith
safe_method delete = ground arith
safe_method other = ground arith

or_left {ℓ κ μ} : {A : Type ℓ} {B : Type κ} {C : Type μ} → A ↔ B → A ⊎ C → B ⊎ C
or_left e (inl a) = inl (e.0 a)
or_left e (inr c) = inr c

or_right {ℓ κ μ} : {A : Type ℓ} {B : Type κ} {C : Type μ} → A ↔ B → B ⊎ C → A ⊎ C
or_right e (inl b) = inl (e.1 b)
or_right e (inr c) = inr c

-- A request passes the check exactly if it brings the cookie of a token that opens a session at its
-- time, and its method is GET, HEAD or OPTIONS or it brings the CSRF token of that session in the
-- header; it then goes on with that session. Tokens are compared by their hashes, which are lists of
-- bytes.
pub require_auth-passes :
    (verify_password : (password password_hash : Text) → Option Bool) (token_hash : Text → List ℕ)
    (db db' : AuthDb) (request : ApiRequest) (session : SessionRecord) (now : Time)
    → ((t : Text) → All (λ x. x < 256) (token_hash t))
    → All (λ x. x < 256) session.csrf_token_hash
    → (require_auth verify_password token_hash db request now ≡ accepted (session, db')) ↔ (
        (raw : Text) × (request.session_cookie_value ≡ some raw)
        × (active_session db (token_hash raw) now ≡ ok (some session, db'))
        × ((((request.method ≡ get) ⊎ (request.method ≡ head)) ⊎ (request.method ≡ options))
            ⊎ ((supplied : Text) × (request.csrf_header ≡ some supplied)
                × (token_hash supplied ≡ session.csrf_token_hash))))
require_auth-passes verify token_hash db db' request session now bytes b = (
  λ e.
      let (raw, used, found, given, active, checked) =
        passes_token token_hash bytes verify db db' request session now e in
      let (same, kept, confirmed) =
        check_csrf-passes token_hash bytes verify request used db' found session b checked in
      (
        raw,
        given,
        active ∙ ap (λ o. ok (o, used)) same ∙ ap (λ d. ok (some session, d)) kept,
        or_left (safe_method request.method) confirmed,
      ),
  λ k.
      passes_back token_hash bytes verify db db' request session now b k.0 k.1 k.2
        (or_right (safe_method request.method) k.3),
)
