-- ===== src/AuditChain.antt =====
-- src/modules/audit: the hash chain of the audit log. audit-chain.ts says what is hashed,
-- `appendChained` of audit.service.ts links a record into its day's chain, and audit-verify.ts checks
-- the chains. SHA-256 is an argument, and so is what the JSON columns give back of a value. The
-- paginated loop has fuel; AuditChain/Pages shows that one page more than there are rows is enough.
pub mod Canonical
pub mod Order
pub mod Check
pub mod Append
pub mod Tamper
pub mod Pages
pub mod Report
use Prim.Native.String.{String}
use easygas_guide_server.Common.{
  ℕ, zero, suc, ◌+◌, ◌/◌, ◌%◌, Bool, true, false, not, ◌&&◌, Option, none, some, List, [], ◌∷◌,
  ◌++◌, ◌==◌, ltb, length, find, filter, update, count, any, sort_on, Text, text, text_eq, is_some,
  if◌then◌else◌,
}
use easygas_guide_server.AuditChain.Canonical.{Json, Members, canonicalize, text_leb}

abbrev pub Hash : Type 0
Hash = Text → Text

-- `String(n)`
decimal_from : ℕ → ℕ → Text
decimal_from zero n = []
decimal_from (suc fuel) n =
    let rest = decimal_from fuel (n / 10) in
    if ltb n 10 then (48 + n) ∷ [] else rest ++ (48 + n % 10) ∷ []

unfoldable pub decimal : ℕ → Text
unfolding decimal_from
decimal n = decimal_from (suc n) n

pub record ChainFields : Type 0 where
  pub chain_id : Text
  pub chain_seq : ℕ
  pub prev_hash : Text
  pub user_id : Option ℕ
  pub action : Text
  pub entity_type : Option Text
  pub entity_id : Option Text
  pub old_value : Json
  pub new_value : Json
  pub ip : Option Text
  pub user_agent : Option Text
  pub created_at : Text

unfoldable pub optional_text : Option Text → Json
optional_text none = Json.null
optional_text (some s) = Json.string s

unfoldable pub optional_number : Option ℕ → Json
unfolding decimal
optional_number none = Json.null
optional_number (some n) = Json.number (decimal n)

abbrev key : String → Json → Members → Members
unfolding text
key k v ms = Members.member (text k) v ms

-- What is hashed of an entry, under CHAIN_VERSION, in the order of the source.
unfoldable pub chain_members : ChainFields → Members
unfolding optional_text optional_number decimal text
chain_members f = key "v" (Json.string (text "v2")) (
    key "chainId" (Json.string f.chain_id) (
      key "chainSeq" (Json.number (decimal f.chain_seq)) (
        key "prevHash" (Json.string f.prev_hash) (
          key "userId" (optional_number f.user_id) (
            key "action" (Json.string f.action) (
              key "entityType" (optional_text f.entity_type) (
                key "entityId" (optional_text f.entity_id) (
                  key "oldValue" f.old_value (
                    key "newValue" f.new_value (
                      key "ip" (optional_text f.ip) (
                        key "userAgent" (optional_text f.user_agent)
                          (key "createdAt" (Json.string f.created_at) Members.end))))))))))))

-- `buildCanonical`
unfoldable pub build_canonical : ChainFields → Text
unfolding canonicalize chain_members
build_canonical f = canonicalize (Json.object (chain_members f))

-- `computeEntryHash`
unfoldable pub compute_entry_hash : Hash → ChainFields → Text
unfolding build_canonical
compute_entry_hash sha256 f = sha256 (build_canonical f)

-- `genesisHash`
unfoldable pub genesis_hash : Hash → Text → Text
unfolding text
genesis_hash sha256 chain_id = sha256 (text "easygas-audit-chain-genesis|v2|" ++ chain_id)

-- What the driver gives of a JSON column: a parsed value, or a text, with what `JSON.parse` makes of the
-- text, none where it throws.
pub data ColumnValue : Type 0 where
  parsed : Json → ColumnValue
  unparsed : Text → Option Json → ColumnValue

unfoldable pub parse_maybe_json : ColumnValue → Json
parse_maybe_json (parsed v) = v
parse_maybe_json (unparsed s none) = Json.string s
parse_maybe_json (unparsed s (some v)) = v

-- A row of `audit_logs`; the first four columns are null for rows older than the chain.
pub record AuditRow : Type 0 where
  pub chain_id : Option Text
  pub chain_seq : ℕ
  pub prev_hash : Text
  pub entry_hash : Text
  pub user_id : Option ℕ
  pub action : Text
  pub entity_type : Option Text
  pub entity_id : Option Text
  pub old_value : ColumnValue
  pub new_value : ColumnValue
  pub ip : Option Text
  pub user_agent : Option Text
  pub created_at : Text

pub record Head : Type 0 where
  pub chain_id : Text
  pub head_hash : Text
  pub head_seq : ℕ

pub record AuditStore : Type 0 where
  pub rows : List AuditRow
  pub heads : List Head

pub record Entry : Type 0 where
  pub user_id : Option ℕ
  pub action : Text
  pub entity_type : Option Text
  pub entity_id : Option Text
  pub old_value : Json
  pub new_value : Json
  pub ip : Option Text
  pub user_agent : Option Text

abbrev pub is_head : Text → Head → Bool
is_head chain_id h = text_eq h.chain_id chain_id

-- `INSERT INTO audit_chain_heads ... ON DUPLICATE KEY UPDATE chain_id = chain_id`
unfoldable pub ensure_head : Hash → Text → List Head → List Head
unfolding genesis_hash
ensure_head sha256 chain_id heads =
    if any (is_head chain_id) heads
    then heads
    else heads
      ++ record { chain_id = chain_id; head_hash = genesis_hash sha256 chain_id; head_seq = 0 } ∷ []

abbrev pub fields_of : Text → Head → Entry → Text → ChainFields
fields_of chain_id head e created_at = record {
  chain_id = chain_id;
  chain_seq = suc head.head_seq;
  prev_hash = head.head_hash;
  user_id = e.user_id;
  action = e.action;
  entity_type = e.entity_type;
  entity_id = e.entity_id;
  old_value = e.old_value;
  new_value = e.new_value;
  ip = e.ip;
  user_agent = e.user_agent;
  created_at = created_at;
}

-- The row that is inserted after a head; `stored` is what the JSON columns will give back.
unfoldable pub chained_row : Hash → (Json → ColumnValue) → Text → Head → Entry → Text → AuditRow
unfolding compute_entry_hash
chained_row sha256 stored chain_id head e created_at = record {
  chain_id = some chain_id;
  chain_seq = suc head.head_seq;
  prev_hash = head.head_hash;
  entry_hash = compute_entry_hash sha256 (fields_of chain_id head e created_at);
  user_id = e.user_id;
  action = e.action;
  entity_type = e.entity_type;
  entity_id = e.entity_id;
  old_value = stored e.old_value;
  new_value = stored e.new_value;
  ip = e.ip;
  user_agent = e.user_agent;
  created_at = created_at;
}

-- The insert of the row and the advance of its head, for the head that was locked.
unfoldable pub append_after :
    Hash
    → (Json → ColumnValue)
    → Text
    → Text
    → Entry
    → List AuditRow
    → List Head
    → Option Head
    → AuditStore
unfolding chained_row
append_after sha256 stored chain_id created_at e rows heads none = record {
  rows = rows;
  heads = heads;
}
append_after sha256 stored chain_id created_at e rows heads (some head) =
    let row = chained_row sha256 stored chain_id head e created_at in
    record {
      rows = rows ++ row ∷ [];
      heads =
          update (is_head chain_id)
            (λ h. record h { head_hash = row.entry_hash; head_seq = row.chain_seq }) heads;
    }

-- `appendChained` with the day's chain and the transaction's timestamp. The head is there: it was
-- inserted before it is read.
unfoldable pub append_chained :
    Hash → (Json → ColumnValue) → Text → Text → Entry → AuditStore → AuditStore
unfolding ensure_head append_after
append_chained sha256 stored chain_id created_at e s =
    let heads = ensure_head sha256 chain_id s.heads in
    append_after sha256 stored chain_id created_at e s.rows heads (find (is_head chain_id) heads)

pub data ChainError : Type 0 where
  seq_gap : (expected found : ℕ) → ChainError
  prev_mismatch hash_mismatch : ℕ → ChainError

-- The variables of the loop of `verifyChain`.
pub record Cursor : Type 0 where
  pub expected_prev : Text
  pub expected_seq : ℕ
  pub entries : ℕ

pub data Checked : Type 0 where
  broken : (entries : ℕ) → ChainError → Checked
  intact : Cursor → Checked

unfoldable pub row_fields : Text → AuditRow → ChainFields
unfolding parse_maybe_json
row_fields chain_id r = record {
  chain_id = chain_id;
  chain_seq = r.chain_seq;
  prev_hash = r.prev_hash;
  user_id = r.user_id;
  action = r.action;
  entity_type = r.entity_type;
  entity_id = r.entity_id;
  old_value = parse_maybe_json r.old_value;
  new_value = parse_maybe_json r.new_value;
  ip = r.ip;
  user_agent = r.user_agent;
  created_at = r.created_at;
}

unfoldable pub advance : AuditRow → Cursor → Cursor
advance r c = record {
  expected_prev = r.entry_hash;
  expected_seq = suc c.expected_seq;
  entries = suc c.entries;
}

-- The checks of one row, in their order.
unfoldable pub row_error : Hash → Text → AuditRow → Cursor → Option ChainError
unfolding compute_entry_hash row_fields
row_error sha256 chain_id r c =
    if not (r.chain_seq == c.expected_seq)
    then some (ChainError.seq_gap c.expected_seq r.chain_seq)
    else if not (text_eq r.prev_hash c.expected_prev)
    then some (ChainError.prev_mismatch r.chain_seq)
    else if not (text_eq (compute_entry_hash sha256 (row_fields chain_id r)) r.entry_hash)
    then some (ChainError.hash_mismatch r.chain_seq)
    else none

-- The inner loop of `verifyChain`.
unfoldable pub check_rows : Hash → Text → List AuditRow → Cursor → Checked
unfolding row_error advance
check_rows sha256 chain_id [] c = Checked.intact c
check_rows sha256 chain_id (r ∷ rs) c =
    let rest = check_rows sha256 chain_id rs (advance r c) in
    elim (row_error sha256 chain_id r c) [ none ↦ rest | some e ↦ Checked.broken c.entries e ]

abbrev pub in_chain : Text → AuditRow → Bool
in_chain chain_id r = elim r.chain_id [ none ↦ false | some id ↦ text_eq id chain_id ]

unfoldable pub take_rows : ℕ → List AuditRow → List AuditRow
take_rows zero rs = []
take_rows (suc n) [] = []
take_rows (suc n) (r ∷ rs) = r ∷ take_rows n rs

-- One page: the rows of the chain after a sequence number, ordered, at most `size` of them.
unfoldable pub page : ℕ → Text → ℕ → List AuditRow → List AuditRow
unfolding take_rows sort_on filter
page size chain_id after rows =
    take_rows size
      (sort_on (λ r. r.chain_seq) (filter (λ r. in_chain chain_id r && ltb after r.chain_seq) rows))

unfoldable pub start : Hash → Text → Cursor
unfolding genesis_hash
start sha256 chain_id = record {
  expected_prev = genesis_hash sha256 chain_id;
  expected_seq = 1;
  entries = 0;
}

-- `after = seq` of the last row of a page
unfoldable pub last_seq : ℕ → List AuditRow → ℕ
last_seq after [] = after
last_seq after (r ∷ rs) = last_seq r.chain_seq rs

-- The outer loop of `verifyChain`: it ends at an error, or at a page that is not full.
unfoldable pub verify_from : Hash → Text → ℕ → ℕ → List AuditRow → Cursor → ℕ → Option Checked
unfolding page check_rows last_seq
verify_from sha256 chain_id zero size rows c after = none
verify_from sha256 chain_id (suc fuel) size rows c after =
    let batch = page size chain_id after rows in
    if length batch == 0
    then some (Checked.intact c)
    else elim (check_rows sha256 chain_id batch c) [
      | Checked.broken entries e ↦ some (Checked.broken entries e)
      | Checked.intact d ↦
          if ltb (length batch) size
          then some (Checked.intact d)
          else verify_from sha256 chain_id fuel size rows d (last_seq after batch)
    ]

-- `verifyChain`
unfoldable pub verify_chain : Hash → ℕ → ℕ → Text → List AuditRow → Option Checked
unfolding verify_from start
verify_chain sha256 fuel size chain_id rows =
    verify_from sha256 chain_id fuel size rows (start sha256 chain_id) 0

-- `.orderBy('chain_seq', 'desc').first()` of a chain
unfoldable pub last_of : Option AuditRow → List AuditRow → Option AuditRow
last_of found [] = found
last_of found (r ∷ rs) = last_of (some r) rs

unfoldable pub last_row : Text → List AuditRow → Option AuditRow
unfolding sort_on filter last_of
last_row chain_id rows = last_of none (sort_on (λ r. r.chain_seq) (filter (in_chain chain_id) rows))

-- A head that is not the last row of its chain.
unfoldable pub is_head_mismatch : Hash → List AuditRow → Head → Bool
unfolding last_row genesis_hash
is_head_mismatch sha256 rows h = elim (last_row h.chain_id rows) [
  | none ↦ not (text_eq h.head_hash (genesis_hash sha256 h.chain_id) && h.head_seq == 0)
  | some r ↦ not (text_eq h.head_hash r.entry_hash && h.head_seq == r.chain_seq)
]

-- `if (opts.onlyChainId)`
abbrev pub in_scope_of : Option Text → Text → Bool
in_scope_of none id = true
in_scope_of (some only) id = text_eq id only

-- `headMismatch` of `verifyAuditChains`
unfoldable pub head_mismatch : Hash → Option Text → AuditStore → List Head
unfolding is_head_mismatch filter
head_mismatch sha256 only s =
    filter (is_head_mismatch sha256 s.rows) (filter (λ h. in_scope_of only h.chain_id) s.heads)

-- `.whereNotNull('chain_id').distinct('chain_id').orderBy('chain_id')`; the ids are dates.
unfoldable pub insert_id : Text → List Text → List Text
insert_id id [] = id ∷ []
insert_id id (x ∷ xs) =
    let rest = insert_id id xs in
    if text_eq id x then x ∷ xs else if text_leb id x then id ∷ x ∷ xs else x ∷ rest

unfoldable pub chain_ids : List AuditRow → List Text
unfolding insert_id
chain_ids [] = []
chain_ids (r ∷ rs) =
    let rest = chain_ids rs in elim r.chain_id [ none ↦ rest | some id ↦ insert_id id rest ]

pub record ChainResult : Type 0 where
  pub chain_id : Text
  pub checked : Checked

abbrev pub chain_ok : ChainResult → Bool
chain_ok c = elim c.checked [ Checked.broken n e ↦ false | Checked.intact d ↦ true ]

abbrev pub chain_entries : ChainResult → ℕ
chain_entries c = elim c.checked [ Checked.broken n e ↦ n | Checked.intact d ↦ d.entries ]

abbrev pub add_result :
    Text → Option Checked → Option (List ChainResult) → Option (List ChainResult)
add_result id (some c) (some cs) = some (record { chain_id = id; checked = c } ∷ cs)
add_result id _ _ = none

-- `for (const chainId of chainIds)`
unfoldable pub verify_each :
    Hash → (fuel size : ℕ) → List Text → List AuditRow → Option (List ChainResult)
unfolding verify_chain
verify_each sha256 fuel size [] rows = some []
verify_each sha256 fuel size (id ∷ ids) rows =
    add_result id (verify_chain sha256 fuel size id rows) (verify_each sha256 fuel size ids rows)

pub record VerifyResult : Type 0 where
  pub is_ok : Bool
  pub chains : List ChainResult
  pub total_chained : ℕ
  pub legacy_unchained : ℕ
  pub mismatch : List Head

abbrev pub every_ok : List ChainResult → Bool
every_ok [] = true
every_ok (c ∷ cs) = let rest = every_ok cs in chain_ok c && rest

abbrev pub total_entries : List ChainResult → ℕ
total_entries [] = 0
total_entries (c ∷ cs) = chain_entries c + total_entries cs

abbrev pub result_of : Hash → Option Text → AuditStore → List ChainResult → VerifyResult
result_of sha256 only s chains = record {
  is_ok = every_ok chains && length (head_mismatch sha256 only s) == 0;
  chains = chains;
  total_chained = total_entries chains;
  legacy_unchained = if is_some only then 0 else count (λ r. not (is_some r.chain_id)) s.rows;
  mismatch = head_mismatch sha256 only s;
}

-- `verifyAuditChains`; none where the fuel for the pages of a chain ran out.
unfoldable pub verify_audit_chains :
    Hash → (fuel size : ℕ) → Option Text → AuditStore → Option VerifyResult
unfolding verify_each head_mismatch chain_ids filter
verify_audit_chains sha256 fuel size only s =
    elim (verify_each sha256 fuel size (filter (in_scope_of only) (chain_ids s.rows)) s.rows) [
      | none ↦ none
      | some chains ↦ some (result_of sha256 only s chains)
    ]

pub record Checkpoint : Type 0 where
  pub chain_id : Text
  pub checkpoint_seq : ℕ
  pub checkpoint_hash : Text
  pub note : Text

-- `writeCheckpoints`
unfoldable pub write_checkpoints : Text → List Head → List Checkpoint → ℕ × List Checkpoint
write_checkpoints note [] written = (0, written)
write_checkpoints note (h ∷ hs) written =
    let (n, after) = write_checkpoints note hs (
      written
      ++ record {
        chain_id = h.chain_id;
        checkpoint_seq = h.head_seq;
        checkpoint_hash = h.head_hash;
        note = note;
      }
        ∷ []) in
    (suc n, after)
