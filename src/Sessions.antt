-- ===== src/Sessions.antt =====
-- src/modules/auth/session.service.ts: session families, the rotation of a token and the detection
-- of a replayed one. The random token and id are arguments (`Fresh`), and so are SHA-256 and the
-- two clocks: `js` is `Date.now()`, `db` the database's. Subtraction stops at 0 where the source's
-- goes below, which the comparisons with a limit do not tell apart.
pub mod Family
pub mod Runs
pub mod Caps
pub mod Resolution
pub mod Revocation
use easygas_guide_server.Common.{
  ℕ, suc, ◌+◌, ◌-◌, ◌*◌, Bool, true, false, not, ◌||◌, ◌&&◌, Option, none, some, List, [], ◌∷◌,
  ◌++◌, ◌==◌, ltb, leb, if◌then◌else◌, length, find, update, is_some, Text, text_eq,
}

-- The limits of src/config/env.ts.
pub record Limits : Type 0 where
  pub absolute_days : ℕ
  pub ttl_hours : ℕ
  pub idle_minutes : ℕ
  pub rotate_minutes : ℕ
  pub grace_seconds : ℕ

pub record Clock : Type 0 where
  pub js : ℕ
  pub db : ℕ

pub record Fresh : Type 0 where
  pub token : Text
  pub id : ℕ

pub record Meta : Type 0 where
  pub ip : Option Text
  pub user_agent : Option Text

pub record Session : Type 0 where
  pub id : ℕ
  pub user_id : ℕ
  pub token_hash : Text
  pub remember_me : Bool
  pub expires_at : ℕ
  pub absolute_expires_at : ℕ
  pub family_id : ℕ
  pub rotation_seq : ℕ
  pub rotated_to_id : Option ℕ
  pub superseded_at : Option ℕ
  pub revoked_at : Option ℕ
  pub created_at : ℕ
  pub last_used_at : ℕ
  pub meta : Meta

pub record Created : Type 0 where
  pub token : Text
  pub remember_me : Bool
  pub absolute_expires_at : ℕ
  pub rotation_seq : ℕ

day_ms : ℕ
day_ms = 24 * 60 * 60 * 1000

hour_ms : ℕ
hour_ms = 60 * 60 * 1000

pub lifetime_ms : Limits → Bool → ℕ
unfolding day_ms hour_ms
lifetime_ms limits remember_me =
    if remember_me then limits.absolute_days * day_ms else limits.ttl_hours * hour_ms

unfoldable pub idle_ms : Limits → ℕ
idle_ms limits = limits.idle_minutes * 60 * 1000

unfoldable pub rotate_ms : Limits → ℕ
rotate_ms limits = limits.rotate_minutes * 60 * 1000

unfoldable pub grace_ms : Limits → ℕ
grace_ms limits = limits.grace_seconds * 1000

-- The row that a login adds. The columns that the insert leaves out have their defaults.
unfoldable pub new_session : (Text → Text) → Limits → ℕ → Bool → Meta → Clock → Fresh → Session
new_session hash limits user_id remember_me meta now fresh = record {
  id = fresh.id;
  user_id = user_id;
  token_hash = hash fresh.token;
  remember_me = remember_me;
  expires_at = now.js + lifetime_ms limits remember_me;
  absolute_expires_at = now.js + lifetime_ms limits remember_me;
  family_id = fresh.id;
  rotation_seq = 0;
  rotated_to_id = none;
  superseded_at = none;
  revoked_at = none;
  created_at = now.db;
  last_used_at = now.db;
  meta = meta;
}

-- `createSession`
unfoldable pub create_session :
    (Text → Text) → Limits → ℕ → Bool → Meta → Clock → Fresh → List Session → Created × List Session
unfolding new_session
create_session hash limits user_id remember_me meta now fresh sessions =
    let row = new_session hash limits user_id remember_me meta now fresh in
    (
      record {
        token = fresh.token;
        remember_me = remember_me;
        absolute_expires_at = row.absolute_expires_at;
        rotation_seq = 0;
      },
      sessions ++ row ∷ [],
    )

-- `typeof rawToken !== 'string' || rawToken.length !== 64` is refused; `none` is no string.
unfoldable pub is_token : Option Text → Bool
is_token none = false
is_token (some raw) = length raw == 64

-- `.where({ token_hash: hashSessionToken(rawToken) }).first()`
unfoldable pub find_token : (Text → Text) → Text → List Session → Option Session
find_token hash raw sessions = find (λ s. text_eq s.token_hash (hash raw)) sessions

-- `.whereNull('revoked_at').update({ revoked_at })` under a condition
unfoldable pub revoke_where : (Session → Bool) → ℕ → List Session → List Session
revoke_where p now sessions =
    update (λ s. p s && not (is_some s.revoked_at)) (λ s. record s { revoked_at = some now })
      sessions

-- `revokeFamily`
unfoldable pub revoke_family : ℕ → ℕ → List Session → List Session
unfolding revoke_where
revoke_family family_id now sessions = revoke_where (λ s. s.family_id == family_id) now sessions

-- `revokeAllSessions` of auth.service.ts
unfoldable pub revoke_all_sessions : ℕ → ℕ → List Session → List Session
unfolding revoke_where
revoke_all_sessions user_id now sessions = revoke_where (λ s. s.user_id == user_id) now sessions

-- The whole family of the row that a logout finds.
unfoldable pub revoke_found : Option Session → ℕ → List Session → Option Session × List Session
revoke_found none now sessions = (none, sessions)
revoke_found (some row) now sessions = (some row, revoke_family row.family_id now sessions)

-- `revokeByToken`
unfoldable pub revoke_by_token :
    (Text → Text) → Option Text → ℕ → List Session → Option Session × List Session
unfolding find
revoke_by_token hash none now sessions = (none, sessions)
revoke_by_token hash (some raw) now sessions =
    if is_token (some raw)
    then revoke_found
        (find (λ s. text_eq s.token_hash (hash raw) && not (is_some s.revoked_at)) sessions) now
        sessions
    else (none, sessions)

-- The row that a rotation adds.
unfoldable pub successor_of : (Text → Text) → Session → Clock → Fresh → Session
successor_of hash cur now fresh = record {
  id = fresh.id;
  user_id = cur.user_id;
  token_hash = hash fresh.token;
  remember_me = cur.remember_me;
  expires_at = cur.expires_at;
  absolute_expires_at = cur.absolute_expires_at;
  family_id = cur.family_id;
  rotation_seq = suc cur.rotation_seq;
  rotated_to_id = none;
  superseded_at = none;
  revoked_at = none;
  created_at = now.db;
  last_used_at = now.db;
  meta = cur.meta;
}

-- The writes of a rotation, under the row's lock.
unfoldable pub supersede : ℕ → Clock → Session → Session
supersede successor now s = record s { superseded_at = some now.db; rotated_to_id = some successor }

-- `rotateSession`. The successor that is read back is the row that was inserted: `id` is the
-- primary key.
unfoldable pub rotate_session :
    (Text → Text) → ℕ → Clock → Fresh → List Session → Option Session × List Session
unfolding successor_of supersede
rotate_session hash current_id now fresh sessions = elim (find (λ s. s.id == current_id) sessions) [
  | none ↦ (none, sessions)
  | some cur ↦ if is_some cur.superseded_at || is_some cur.revoked_at then (none, sessions) else (
    some (successor_of hash cur now fresh),
    update (λ s. s.id == current_id) (supersede fresh.id now)
        (sessions ++ successor_of hash cur now fresh ∷ []),
  )
]

-- What the new cookie is made of.
pub record Rotated : Type 0 where
  pub token : Text
  pub remember_me : Bool
  pub absolute_expires_at : ℕ

pub data Outcome : Type 0 where
  invalid replay : Outcome
  resolved : Session → Option Rotated → Outcome

abbrev pub rotated_of : Text → Session → Rotated
rotated_of token successor = record {
  token = token;
  remember_me = successor.remember_me;
  absolute_expires_at = successor.absolute_expires_at;
}

-- The caps that `resolveSession` reads first.
unfoldable pub is_expired : Limits → Clock → Session → Bool
unfolding idle_ms
is_expired limits now row =
    leb row.absolute_expires_at now.js || ltb (idle_ms limits) (now.js - row.last_used_at)

-- Where the rotation was lost to another request, the old token is served.
unfoldable pub rotated_outcome :
    Session → Text → Option Session × List Session → Outcome × List Session
rotated_outcome row token (none, after) = (resolved row none, after)
rotated_outcome row token (some successor, after) =
    (resolved successor (some (rotated_of token successor)), after)

unfoldable pub touch : Clock → Session → Session
touch now s = record s { last_used_at = now.db }

-- What follows for a token that is current.
unfoldable pub resolve_current :
    (Text → Text) → Limits → Session → Clock → Fresh → List Session → Outcome × List Session
unfolding rotate_ms
resolve_current hash limits row now fresh sessions =
    if ltb (rotate_ms limits) (now.js - row.created_at)
    then rotated_outcome row fresh.token (rotate_session hash row.id now fresh sessions)
    else if ltb 60_000 (now.js - row.last_used_at)
    then (resolved row none, update (λ s. s.id == row.id) (touch now) sessions)
    else (resolved row none, sessions)

-- What follows for a row that is neither revoked nor expired, by the time of its rotation.
unfoldable pub resolve_row :
    (Text → Text)
    → Limits
    → Option ℕ
    → Session
    → Clock
    → Fresh
    → List Session
    → Outcome × List Session
unfolding grace_ms
resolve_row hash limits none row now fresh sessions =
    resolve_current hash limits row now fresh sessions
resolve_row hash limits (some at) row now fresh sessions =
    if leb (now.js - at) (grace_ms limits)
    then (resolved row none, sessions)
    else (replay, revoke_family row.family_id now.db sessions)

-- `resolveSession`. The row is read from `before`; the writes find the table as `sessions`, since
-- other requests may come in between.
unfoldable pub resolve_session :
    (Text → Text)
    → Limits
    → Option Text
    → Clock
    → Fresh
    → List Session
    → List Session
    → Outcome × List Session
resolve_session hash limits none now fresh before sessions = (invalid, sessions)
resolve_session hash limits (some raw) now fresh before sessions =
    if is_token (some raw)
    then elim (find_token hash raw before) [
      | none ↦ (invalid, sessions)
      | some row ↦
          if is_some row.revoked_at || is_expired limits now row
          then (invalid, sessions)
          else resolve_row hash limits row.superseded_at row now fresh sessions
    ]
    else (invalid, sessions)
