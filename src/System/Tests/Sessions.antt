-- ===== src/System/Tests/Sessions.antt =====
-- The theorems of sessions, login and password change at work.
use easygas_guide_server.Common.{
  ℕ, Bool, true, false, Option, none, some, List, [], ◌∷◌, ◌++◌, ◌≡◌, refl, arith, length, count,
  Text, text, text_eq, All,
}
use easygas_guide_server.Sessions.{
  Session, Limits, Clock, Fresh, Meta, Outcome, Created, Rotated, create_session, resolve_session,
  revoke_family, find_token, rotated_of, revoke_all_sessions, successor_of,
}
use easygas_guide_server.Sessions.Family.{IsLinear, current_in}
use easygas_guide_server.Sessions.Runs.{Run, Run-IsLinear, in_family}
use easygas_guide_server.Sessions.Caps.{Bound, Capped, Run-Capped}
use easygas_guide_server.Sessions.Resolution.{Accepted, resolve_session-Accepted}
use easygas_guide_server.Auth.{
  Account, AccountStatus, AuthDb, AuthError, AuthEvent, Branch, Changed, FailReason, LoginInput,
  LoginOutcome, login_user, change_password,
}
use easygas_guide_server.Auth.Login.{Refused, login_user-Refused}
use easygas_guide_server.Auth.Password.{change_password-ends_families}

abbrev hashed : Text → Text
hashed s = 7 ∷ s

abbrev limits : Limits
limits = record {
  absolute_days = 30;
  ttl_hours = 24;
  idle_minutes = 720;
  rotate_minutes = 60;
  grace_seconds = 30;
}

abbrev nowhere : Meta
nowhere = record { ip = none; user_agent = none }

abbrev clock : ℕ → Clock
clock t = record { js = t; db = t }

-- 64 units
abbrev old_token : Text
old_token = text "0000000000000000000000000000000000000000000000000000000000000000"

abbrev new_token : Text
new_token = text "1111111111111111111111111111111111111111111111111111111111111111"

abbrev third_token : Text
third_token = text "2222222222222222222222222222222222222222222222222222222222222222"

abbrev session : ℕ → Text → ℕ → Option ℕ → ℕ → Session
session id token seq superseded created = record {
  id = id;
  user_id = 5;
  token_hash = hashed token;
  remember_me = false;
  expires_at = 86_400_000;
  absolute_expires_at = 86_400_000;
  family_id = 1;
  rotation_seq = seq;
  rotated_to_id = none;
  superseded_at = superseded;
  revoked_at = none;
  created_at = created;
  last_used_at = created;
  meta = nowhere;
}

-- A login at 0, whose token was rotated out two hours later.
abbrev first_row : Session
first_row = session 1 old_token 0 (some 7_200_000) 0

abbrev second_row : Session
second_row = session 2 new_token 1 none 7_200_000

abbrev sessions : List Session
sessions = first_row ∷ second_row ∷ []

abbrev fresh : Fresh
fresh = record { token = third_token; id = 3 }

-- The first token comes back a minute after its rotation.
abbrev after_replay : List Session
after_replay = revoke_family 1 7_260_000 sessions

lone : IsLinear (second_row ∷ [])
unfolding IsLinear count current_in easygas_guide_server.Sessions.Family.is_current
lone family_id = ground arith

abbrev later_run :
    Run hashed limits
      (second_row ∷ [])
      (resolve_session hashed limits
        (some new_token)
        (clock 14_400_000)
        fresh
        sessions
        (second_row ∷ [])).1
later_run = Run.resolves (some new_token) (clock 14_400_000) fresh sessions Run.begins

Run-IsLinear_example :
    IsLinear
      (resolve_session hashed limits
        (some new_token)
        (clock 14_400_000)
        fresh
        sessions
        (second_row ∷ [])).1
Run-IsLinear_example = Run-IsLinear hashed limits (second_row ∷ []) _ lone later_run

capped : Capped 1 5 86_400_000 (second_row ∷ [])
unfolding Capped Bound count in_family
capped = (ground arith, (λ e. (refl, refl), tt))

Run-Capped_example :
    Capped 1 5 86_400_000
      (resolve_session hashed limits
        (some new_token)
        (clock 14_400_000)
        fresh
        sessions
        (second_row ∷ [])).1
Run-Capped_example = Run-Capped 1 5 86_400_000 hashed limits (second_row ∷ []) _ capped later_run

abbrev third_row : Session
third_row = successor_of hashed second_row (clock 14_400_000) fresh

resolve_session-Accepted_example :
    Accepted hashed limits new_token
      (clock 14_400_000)
      fresh
      sessions
      sessions
      third_row
      (some (rotated_of third_token third_row))
unfolding resolve_session easygas_guide_server.Sessions.is_token text find_token
    easygas_guide_server.Common.find text_eq easygas_guide_server.Sessions.is_expired
    easygas_guide_server.Sessions.resolve_row easygas_guide_server.Sessions.resolve_current
    easygas_guide_server.Sessions.rotated_outcome easygas_guide_server.Sessions.rotate_session
resolve_session-Accepted_example =
    resolve_session-Accepted hashed limits (clock 14_400_000) fresh sessions third_row
      (some (rotated_of third_token third_row))
      (resolve_session hashed limits (some new_token) (clock 14_400_000) fresh sessions sessions).1
      new_token sessions refl

abbrev account : AccountStatus → Account
account status = record {
  id = 5;
  phone = text "+998901234567";
  password_hash = text "secret";
  branch_id = some 1;
  status = status;
  must_change_password = true;
  temp_password_expires_at = some 10;
  last_login_at = none;
  deleted = false;
}

abbrev auth_db : AccountStatus → List Session → AuthDb
auth_db status rows = record {
  accounts = account status ∷ [];
  branches = record { id = 1; active = true } ∷ [];
  requests = [];
  sessions = rows;
  audit = [];
  next_id = 1;
}

abbrev credentials : LoginInput
credentials = record { phone = text "+998901234567"; password = text "secret"; remember_me = false }

-- The right password of an account whose temporary password ran out.
abbrev refused_db : AuthDb
refused_db = record (auth_db AccountStatus.active []) {
  audit = AuthEvent.login_failed 5 FailReason.temp_password_expired ∷ [];
}

login_user-Refused_example :
    Refused text_eq credentials
      (clock 20)
      (auth_db AccountStatus.active [])
      (auth_db AccountStatus.active [])
      AuthError.temp_expired
      refused_db
unfolding login_user easygas_guide_server.Auth.find_by_phone easygas_guide_server.Common.find
    text_eq text easygas_guide_server.Auth.login_locked easygas_guide_server.Auth.find_account
    easygas_guide_server.Auth.has_active_branch
login_user-Refused_example =
    login_user-Refused text_eq hashed limits credentials nowhere (clock 20) fresh
      (auth_db AccountStatus.active []) (auth_db AccountStatus.active []) AuthError.temp_expired
      refused_db refl

abbrev changed_db : Changed → AuthDb
changed_db (Changed.changed created db) = db
changed_db (Changed.failed e) = auth_db AccountStatus.blocked []

abbrev created_of : Changed → Created
created_of (Changed.changed created db) = created
created_of (Changed.failed e) = record {
  token = [];
  remember_me = false;
  absolute_expires_at = 0;
  rotation_seq = 0;
}

abbrev change : Changed
change =
    change_password text_eq hashed limits 5 (text "secret") (text "better") (text "better") nowhere
      (clock 5) fresh (auth_db AccountStatus.active (second_row ∷ []))

change_password-ends_families_example :
    resolve_session hashed limits (some new_token) (clock 6) fresh (changed_db change).sessions []
    ≡ (Outcome.invalid, [])
unfolding count revoke_all_sessions easygas_guide_server.Common.update in_family change_password
    easygas_guide_server.Auth.find_account easygas_guide_server.Common.find text_eq text find_token
    create_session
change_password-ends_families_example =
    change_password-ends_families text_eq hashed limits 5 (text "secret") (text "better")
      (text "better") nowhere (clock 5) fresh (auth_db AccountStatus.active (second_row ∷ []))
      (created_of change) (changed_db change) 1 86_400_000 capped refl refl
      (changed_db change).sessions [] new_token (record second_row { revoked_at = some 5 })
      (clock 6) fresh Run.begins refl refl
