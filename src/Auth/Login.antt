-- ===== src/Auth/Login.antt =====
-- The outcomes of `login` of auth.service.ts.
use mathlib.Core.List.{append-nil}
use easygas_guide_server.Common.{
  ℕ, ◌≤◌, refl, Bool, true, false, none, some, List, [], ◌∷◌, ◌++◌, ◌≡◌, arith, inl, inr, Text,
  Option-cases, Bool-cases,
}
use easygas_guide_server.Sessions.{Limits, Clock, Fresh, Meta, Created, new_session, create_session}
use easygas_guide_server.Auth.{
  Account, AuthDb, AuthError, AccountStatus, FailReason, AuthEvent, LoginInput, LoginOutcome,
  is_active, is_temp_expired, find_account, find_by_phone, has_active_branch, open_session,
  login_locked, login_user,
}

-- Why a login is refused, what is answered, and what is recorded of it. The account is the one of the
-- phone number, and its row is read again under the lock.
pub data Cause (matches : Text → Text → Bool) (input : LoginInput) (now : Clock) (read db : AuthDb)
    (error : AuthError) (events : List AuthEvent) : Type 0 where
  unknown_phone :
      find_by_phone input.phone read ≡ none
      → error ≡ AuthError.invalid_credentials
      → events ≡ []
      → Cause matches input now read db error events
  account_gone :
      (user : Account)
      → find_by_phone input.phone read ≡ some user
      → find_account user.id db ≡ none
      → error ≡ AuthError.invalid_credentials
      → events ≡ []
      → Cause matches input now read db error events
  wrong_password :
      (user row : Account)
      → find_by_phone input.phone read ≡ some user
      → find_account user.id db ≡ some row
      → matches input.password row.password_hash ≡ false
      → error ≡ AuthError.invalid_credentials
      → events ≡ AuthEvent.login_failed user.id FailReason.wrong_password ∷ []
      → Cause matches input now read db error events
  blocked :
      (user row : Account)
      → find_by_phone input.phone read ≡ some user
      → find_account user.id db ≡ some row
      → matches input.password row.password_hash ≡ true
      → row.status ≡ AccountStatus.blocked
      → error ≡ AuthError.invalid_credentials
      → events ≡ AuthEvent.login_failed user.id FailReason.account_inactive ∷ []
      → Cause matches input now read db error events
  closed_branch :
      (user row : Account)
      → find_by_phone input.phone read ≡ some user
      → find_account user.id db ≡ some row
      → matches input.password row.password_hash ≡ true
      → row.status ≡ AccountStatus.active
      → has_active_branch user.branch_id read ≡ false
      → error ≡ AuthError.invalid_credentials
      → events ≡ AuthEvent.login_failed user.id FailReason.branch_inactive ∷ []
      → Cause matches input now read db error events
  out_of_date :
      (user row : Account)
      → find_by_phone input.phone read ≡ some user
      → find_account user.id db ≡ some row
      → matches input.password row.password_hash ≡ true
      → row.status ≡ AccountStatus.active
      → has_active_branch user.branch_id read ≡ true
      → row.must_change_password ≡ true
      → (at : ℕ) × (row.temp_password_expires_at ≡ some at) × (at ≤ now.js)
      → error ≡ AuthError.temp_expired
      → events ≡ AuthEvent.login_failed user.id FailReason.temp_password_expired ∷ []
      → Cause matches input now read db error events

-- A refusal adds no session and changes no account, and has its cause.
pub record Refused (matches : Text → Text → Bool) (input : LoginInput) (now : Clock)
    (read db : AuthDb) (error : AuthError) (after : AuthDb) : Type 0 where
  pub sessions : after.sessions ≡ db.sessions
  pub accounts : after.accounts ≡ db.accounts
  pub events : List AuthEvent
  pub audit : after.audit ≡ db.audit ++ events
  pub cause : Cause matches input now read db error events

active_status : (s : AccountStatus) → is_active s ≡ true → s ≡ AccountStatus.active
active_status AccountStatus.active h = refl
active_status AccountStatus.blocked h = absurd (ground arith)

blocked_status : (s : AccountStatus) → is_active s ≡ false → s ≡ AccountStatus.blocked
blocked_status AccountStatus.active h = absurd (ground arith)
blocked_status AccountStatus.blocked h = refl

temp_expiry :
    (now : ℕ) (a : Account)
    → is_temp_expired now a ≡ true
    → (a.must_change_password ≡ true)
      × ((at : ℕ) × (a.temp_password_expires_at ≡ some at) × (at ≤ now))
unfolding is_temp_expired
temp_expiry now a h = elim (Option-cases a.temp_password_expires_at) [
  | inl e ↦ absurd (let k = rw (is_temp_expired, e) at h in ground arith)
  | inr (at, e) ↦ let k = rw (is_temp_expired, e) at h in (ground arith, (at, e, ground arith))
]

-- The account that is logged in, as it stands under its lock, and the new session.
pub record LoggedIn (matches : Text → Text → Bool) (hash : Text → Text) (limits : Limits)
    (input : LoginInput) (meta : Meta) (now : Clock) (fresh : Fresh) (read db : AuthDb)
    (must_change : Bool) (after : AuthDb) : Type 0 where
  pub user : Account
  pub row : Account
  pub by_phone : find_by_phone input.phone read ≡ some user
  pub locked : find_account user.id db ≡ some row
  pub password : matches input.password row.password_hash ≡ true
  pub active : is_active row.status ≡ true
  pub branch : has_active_branch user.branch_id read ≡ true
  pub unexpired : is_temp_expired now.js row ≡ false
  pub flag : must_change ≡ row.must_change_password
  pub sessions :
      after.sessions
      ≡ db.sessions ++ new_session hash limits user.id input.remember_me meta now fresh ∷ []
  pub audit : after.audit ≡ db.audit ++ AuthEvent.login user.id ∷ []

module _ (matches : Text → Text → Bool) (hash : Text → Text) (limits : Limits) (input : LoginInput)
    (meta : Meta) (now : Clock) (fresh : Fresh) (read db : AuthDb) where
  login_locked-Refused :
      (user : Account) (error : AuthError) (after : AuthDb)
      → find_by_phone input.phone read ≡ some user
      → login_locked matches hash limits user
          (has_active_branch user.branch_id read)
          input
          meta
          now
          fresh
          db
        ≡ (LoginOutcome.refused error, after)
      → Refused matches input now read db error after
  unfolding login_locked open_session
  login_locked-Refused user error after seen h = elim (Option-cases (find_account user.id db)) [
    | inl e ↦
        let h' = rw (login_locked, e) at h in
        record {
          sessions = ground arith;
          accounts = ground arith;
          events = [];
          audit = ground (arith, append-nil db.audit);
          cause = account_gone user seen e (ground arith) refl;
        }
    | inr (row, e) ↦
        let h' = rw (login_locked, e) at h in
        elim (Bool-cases (matches input.password row.password_hash)) [
          | inr wrong ↦ record {
            sessions = ground arith;
            accounts = ground arith;
            events = AuthEvent.login_failed user.id FailReason.wrong_password ∷ [];
            audit = ground arith;
            cause = wrong_password user row seen e wrong (ground arith) refl;
          }
          | inl right ↦ elim (Bool-cases (is_active row.status)) [
            | inr other ↦ record {
              sessions = ground arith;
              accounts = ground arith;
              events = AuthEvent.login_failed user.id FailReason.account_inactive ∷ [];
              audit = ground arith;
              cause =
                  blocked user row seen e right (blocked_status row.status other) (ground arith)
                    refl;
            }
            | inl active ↦ elim (Bool-cases (has_active_branch user.branch_id read)) [
              | inr closed ↦ record {
                sessions = ground arith;
                accounts = ground arith;
                events = AuthEvent.login_failed user.id FailReason.branch_inactive ∷ [];
                audit = ground arith;
                cause =
                    closed_branch user row seen e right (active_status row.status active) closed
                      (ground arith) refl;
              }
              | inl running ↦ elim (Bool-cases (is_temp_expired now.js row)) [
                | inr fine ↦ absurd (ground arith)
                | inl late ↦
                    let (must, expiry) = temp_expiry now.js row late in
                    record {
                      sessions = ground arith;
                      accounts = ground arith;
                      events = AuthEvent.login_failed user.id FailReason.temp_password_expired ∷ [];
                      audit = ground arith;
                      cause =
                          out_of_date user row seen e right (active_status row.status active)
                            running must expiry (ground arith) refl;
                    }
              ]
            ]
          ]
        ]
  ]

  -- A refused login adds no session and changes no account. It answers INVALID_CREDENTIALS for an
  -- unknown or deleted account, a wrong password, a blocked account and a closed branch, and
  -- TEMP_PASSWORD_EXPIRED only to who has the password of the phone's account, which is active, in an
  -- active branch, and whose temporary password is out of date; the audit log keeps the cause.
  pub login_user-Refused :
      (error : AuthError) (after : AuthDb)
      → login_user matches hash limits input meta now fresh read db
        ≡ (LoginOutcome.refused error, after)
      → Refused matches input now read db error after
  unfolding login_user
  login_user-Refused error after h = elim (Option-cases (find_by_phone input.phone read)) [
    | inl e ↦
        let h' = rw (login_user, e) at h in
        record {
          sessions = ground arith;
          accounts = ground arith;
          events = [];
          audit = ground (arith, append-nil db.audit);
          cause = unknown_phone e (ground arith) refl;
        }
    | inr (user, e) ↦ login_locked-Refused user error after e (rw (login_user, e) at h)
  ]

  -- A login that succeeds had the password of the row under its lock, of an active account whose
  -- branch was active when it was read and whose temporary password is not out of date; it adds one
  -- session of that user and its record.
  pub login_user-LoggedIn :
      (created : Created) (must_change : Bool) (after : AuthDb)
      → login_user matches hash limits input meta now fresh read db
        ≡ (LoginOutcome.logged_in created must_change, after)
      → LoggedIn matches hash limits input meta now fresh read db must_change after
  unfolding login_user login_locked open_session create_session
  login_user-LoggedIn created must_change after h =
      elim (Option-cases (find_by_phone input.phone read)) [
        | inl e ↦ absurd (let h' = rw (login_user, e) at h in ground arith)
        | inr (user, e) ↦ elim (Option-cases (find_account user.id db)) [
          | inl k ↦ absurd (let h' = rw (login_user, e, login_locked, k) at h in ground arith)
          | inr (row, k) ↦
              let h' = rw (login_user, e, login_locked, k) at h in
              record {
                user = user;
                row = row;
                by_phone = e;
                locked = k;
                password = ground arith;
                active = ground arith;
                branch = ground arith;
                unexpired = ground arith;
                flag = ground arith;
                sessions = ground arith;
                audit = ground arith;
              }
        ]
      ]
