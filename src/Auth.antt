-- ===== src/Auth.antt =====
-- src/modules/auth/auth.service.ts: login, logout, registration and the change of one's password.
-- bcrypt is a pair of arguments: `matches password hash` for `compare`, and the new hash itself, which
-- is salted. Audit records keep what a failure was about; `read` is the store before the row's lock.
pub mod Login
pub mod Password
use easygas_guide_server.Common.{
  ℕ, Bool, true, false, not, ◌||◌, ◌&&◌, Option, none, some, List, [], ◌∷◌, ◌++◌, ◌==◌, leb, find,
  update, is_some, Text, text_eq, if◌then◌else◌,
}
use easygas_guide_server.Sessions.{
  Session, Limits, Clock, Fresh, Meta, Created, create_session, revoke_all_sessions,
  revoke_by_token,
}

pub data AccountStatus : Type 0 where
  active blocked : AccountStatus

abbrev pub is_active : AccountStatus → Bool
is_active AccountStatus.active = true
is_active _ = false

-- The columns of `users` that this file reads or writes.
pub record Account : Type 0 where
  pub id : ℕ
  pub phone : Text
  pub password_hash : Text
  pub branch_id : Option ℕ
  pub status : AccountStatus
  pub must_change_password : Bool
  pub temp_password_expires_at : Option ℕ
  pub last_login_at : Option ℕ
  pub deleted : Bool

pub record Branch : Type 0 where
  pub id : ℕ
  pub active : Bool

pub data RequestStatus : Type 0 where
  pending approved rejected : RequestStatus

pub record RegistrationRequest : Type 0 where
  pub id : ℕ
  pub first_name : Text
  pub last_name : Text
  pub phone : Text
  pub region : Text
  pub branch_id : ℕ
  pub comment : Option Text
  pub password_hash : Text
  pub status : RequestStatus

pub data FailReason : Type 0 where
  wrong_password account_inactive branch_inactive temp_password_expired : FailReason

pub data AuthEvent : Type 0 where
  login_failed : ℕ → FailReason → AuthEvent
  login : ℕ → AuthEvent
  logout : (user session : ℕ) → AuthEvent
  registration_requested : ℕ → AuthEvent
  password_changed : ℕ → AuthEvent

pub record AuthDb : Type 0 where
  pub accounts : List Account
  pub branches : List Branch
  pub requests : List RegistrationRequest
  pub sessions : List Session
  pub audit : List AuthEvent
  pub next_id : ℕ

pub data AuthError : Type 0 where
  invalid_credentials temp_expired unauthorized invalid_current_password password_reuse : AuthError
  invalid_branch phone_taken request_pending : AuthError

abbrev record_event : AuthEvent → AuthDb → AuthDb
record_event e db = record db { audit = db.audit ++ e ∷ [] }

-- `.where({ id }).whereNull('deleted_at').first()`
unfoldable pub find_account : ℕ → AuthDb → Option Account
find_account id db = find (λ a. a.id == id && not a.deleted) db.accounts

-- `findUserByPhone`
unfoldable pub find_by_phone : Text → AuthDb → Option Account
find_by_phone phone db = find (λ a. text_eq a.phone phone && not a.deleted) db.accounts

-- `user.branch_status === 'ACTIVE'` over the left join: null where the branch is missing.
unfoldable pub has_active_branch : Option ℕ → AuthDb → Bool
has_active_branch none db = true
has_active_branch (some branch_id) db = elim (find (λ b. b.id == branch_id) db.branches) [
  | none ↦ false
  | some b ↦ b.active
]

-- An admin's temporary password that ran out.
unfoldable pub is_temp_expired : ℕ → Account → Bool
is_temp_expired now a = elim a.temp_password_expires_at [
  | none ↦ false
  | some at ↦ a.must_change_password && leb at now
]

pub data LoginOutcome : Type 0 where
  refused : AuthError → LoginOutcome
  -- the session, and whether the account still has to change its password
  logged_in : Created → Bool → LoginOutcome

pub record LoginInput : Type 0 where
  pub phone : Text
  pub password : Text
  pub remember_me : Bool

module _ (matches : Text → Text → Bool) (hash : Text → Text) (limits : Limits) where
  abbrev fail : ℕ → FailReason → AuthError → AuthDb → LoginOutcome × AuthDb
  fail user reason error db =
      (LoginOutcome.refused error, record_event (AuthEvent.login_failed user reason) db)

  -- The session, the time of the login and its record.
  unfoldable pub open_session :
      Account → Account → LoginInput → Meta → Clock → Fresh → AuthDb → LoginOutcome × AuthDb
  open_session user row input meta now fresh db =
      let (created, sessions) =
        create_session hash limits user.id input.remember_me meta now fresh db.sessions in
      (
        LoginOutcome.logged_in created row.must_change_password,
        record_event (AuthEvent.login user.id) (record db {
          sessions = sessions;
          accounts =
              update (λ a. a.id == user.id) (λ a. record a { last_login_at = some now.db })
                db.accounts;
        }),
      )

  -- The transaction of `login`: the row is read again under its lock. A refusal commits its record.
  unfoldable pub login_locked :
      Account → Bool → LoginInput → Meta → Clock → Fresh → AuthDb → LoginOutcome × AuthDb
  unfolding open_session is_temp_expired
  login_locked user branch_active input meta now fresh db = elim (find_account user.id db) [
    | none ↦ (LoginOutcome.refused AuthError.invalid_credentials, db)
    | some row ↦
        if not (matches input.password row.password_hash)
        then fail user.id FailReason.wrong_password AuthError.invalid_credentials db
        else if not (is_active row.status)
        then fail user.id FailReason.account_inactive AuthError.invalid_credentials db
        else if not branch_active
        then fail user.id FailReason.branch_inactive AuthError.invalid_credentials db
        else if is_temp_expired now.js row
        then fail user.id FailReason.temp_password_expired AuthError.temp_expired db
        else open_session user row input meta now fresh db
  ]

  -- `login`
  unfoldable pub login_user :
      LoginInput → Meta → Clock → Fresh → (read db : AuthDb) → LoginOutcome × AuthDb
  login_user input meta now fresh read db = elim (find_by_phone input.phone read) [
    | none ↦ (LoginOutcome.refused AuthError.invalid_credentials, db)
    | some user ↦ login_locked user (has_active_branch user.branch_id read) input meta now fresh db
  ]

  -- `logout`
  unfoldable pub logout_user : Option Text → ℕ → AuthDb → AuthDb
  logout_user raw now db =
      let (found, sessions) = revoke_by_token hash raw now db.sessions in
      elim found [
        | none ↦ record db { sessions = sessions }
        | some s ↦
            record_event (AuthEvent.logout s.user_id s.id) (record db { sessions = sessions })
      ]

pub data Changed : Type 0 where
  failed : AuthError → Changed
  changed : Created → AuthDb → Changed

abbrev refuse_if : Bool → AuthError → Changed → Changed
refuse_if true error next = Changed.failed error
refuse_if false error next = next

module _ (matches : Text → Text → Bool) (hash : Text → Text) (limits : Limits) where
  -- The writes of `changePassword`, in its order.
  unfoldable pub set_password : ℕ → Text → Meta → Clock → Fresh → AuthDb → Changed
  set_password id new_hash meta now fresh db =
      let revoked = revoke_all_sessions id now.db db.sessions in
      let (created, sessions) = create_session hash limits id false meta now fresh revoked in
      Changed.changed created (
        record_event (AuthEvent.password_changed id) (record db {
          accounts =
              update (λ a. a.id == id)
                (λ a. record a {
                  password_hash = new_hash;
                  must_change_password = false;
                  temp_password_expires_at = none;
                })
                db.accounts;
          sessions = sessions;
        }))

  -- `changePassword`: an error rolls the transaction back.
  unfoldable pub change_password :
      ℕ → (current new new_hash : Text) → Meta → Clock → Fresh → AuthDb → Changed
  unfolding set_password is_temp_expired
  change_password id current new new_hash meta now fresh db = elim (find_account id db) [
    | none ↦ Changed.failed AuthError.unauthorized
    | some row ↦ refuse_if (is_temp_expired now.js row) AuthError.temp_expired (
        refuse_if (not (matches current row.password_hash)) AuthError.invalid_current_password (
          refuse_if (matches new row.password_hash) AuthError.password_reuse
            (set_password id new_hash meta now fresh db)))
  ]

pub record RegisterInput : Type 0 where
  pub first_name : Text
  pub last_name : Text
  pub phone : Text
  pub region : Text
  pub branch_id : ℕ
  pub comment : Option Text

abbrev is_pending : RequestStatus → Bool
is_pending RequestStatus.pending = true
is_pending _ = false

pub data Registered : Type 0 where
  not_registered : AuthError → Registered
  registered : ℕ → AuthDb → Registered

abbrev register_if : Bool → AuthError → Registered → Registered
register_if true error next = Registered.not_registered error
register_if false error next = next

unfoldable pub has_pending : Text → AuthDb → Bool
has_pending phone db =
    is_some (find (λ r. text_eq r.phone phone && is_pending r.status) db.requests)

-- `createRegistrationRequest`, whose reads and insert share no transaction.
unfoldable pub create_registration_request : RegisterInput → Text → AuthDb → Registered
unfolding has_pending find_by_phone
create_registration_request input password_hash db =
    register_if (not (is_some (find (λ b. b.id == input.branch_id && b.active) db.branches)))
      AuthError.invalid_branch
      (register_if (is_some (find_by_phone input.phone db)) AuthError.phone_taken (
        register_if (has_pending input.phone db) AuthError.request_pending (
          Registered.registered db.next_id (
            record_event (AuthEvent.registration_requested db.next_id) (record db {
              requests =
                  db.requests
                  ++ record {
                    id = db.next_id;
                    first_name = input.first_name;
                    last_name = input.last_name;
                    phone = input.phone;
                    region = input.region;
                    branch_id = input.branch_id;
                    comment = input.comment;
                    password_hash = password_hash;
                    status = RequestStatus.pending;
                  }
                    ∷ [];
              next_id = Prim.Native.Nat.suc db.next_id;
            })))))
