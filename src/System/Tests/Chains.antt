-- ===== src/System/Tests/Chains.antt =====
-- The theorems of the audit chain at work.
use easygas_guide_server.Common.{
  ℕ, ◌≤◌, ◌<◌, ◌≢◌, Bool, true, false, Option, none, some, List, [], ◌∷◌, ◌++◌, ◌≡◌, refl, arith,
  length, Text, text, All,
}
use easygas_guide_server.AuditChain.Canonical.{Json, Members, canonicalize}
use easygas_guide_server.AuditChain.Order.{Reordered, ReorderedMembers, canonicalize-Reordered}
use easygas_guide_server.AuditChain.{
  ColumnValue, Hash, AuditStore, AuditRow, Entry, Head, Cursor, Checked, append_chained,
  chained_row, genesis_hash, check_rows, row_fields, build_canonical, verify_chain, start,
  VerifyResult, verify_audit_chains,
}
use easygas_guide_server.AuditChain.Append.{IsKept, Anchored, chain_rows, append_chained-Anchored}
use easygas_guide_server.AuditChain.Tamper.{check_rows-tamper}
use easygas_guide_server.AuditChain.Pages.{IsAscending, verify_chain-check_rows}
use easygas_guide_server.AuditChain.Report.{Write, written, verify_audit_chains-written}

-- A hash without collisions, and columns that keep the order of members.
abbrev plain : Hash
plain s = s

abbrev kept : Json → ColumnValue
kept v = ColumnValue.parsed v

abbrev day : Text
day = text "2026-01-01"

abbrev at : Text
at = text "10:00"

abbrev ab : Json
ab = Json.object (
    Members.member (text "a") Json.null (Members.member (text "b") (Json.boolean true) Members.end))

abbrev ba : Json
ba = Json.object (
    Members.member (text "b") (Json.boolean true) (Members.member (text "a") Json.null Members.end))

a_not_b : text "a" ≢ text "b"
unfolding text
a_not_b h = ground arith

abbrev swapped : Reordered ab ba
swapped = Reordered.in_object _ _ (
    ReorderedMembers.swapped (text "a") (text "b") Json.null (Json.boolean true) Members.end
      a_not_b)

canonicalize-Reordered_example : canonicalize ab ≡ canonicalize ba
canonicalize-Reordered_example = canonicalize-Reordered swapped

abbrev event : Entry
event = record {
  user_id = some 5;
  action = text "LOGIN";
  entity_type = none;
  entity_id = none;
  old_value = ab;
  new_value = Json.null;
  ip = none;
  user_agent = none;
}

event-IsKept : IsKept kept event
unfolding easygas_guide_server.AuditChain.parse_maybe_json
event-IsKept = (Reordered.same ab, Reordered.same Json.null)

abbrev empty : AuditStore
empty = record { rows = []; heads = [] }

empty-Anchored : (other : Text) → Anchored plain other empty
unfolding Anchored easygas_guide_server.Common.find easygas_guide_server.Common.filter
empty-Anchored other = refl

abbrev one : AuditStore
one = append_chained plain kept day at event empty

one-Anchored : (other : Text) → Anchored plain other one
one-Anchored = append_chained-Anchored plain kept day event at event-IsKept empty empty-Anchored

abbrev two : AuditStore
two = append_chained plain kept day at event one

append_chained-Anchored_example : Anchored plain day two
append_chained-Anchored_example =
    append_chained-Anchored plain kept day event at event-IsKept one one-Anchored day

abbrev first_row : AuditRow
first_row =
    chained_row plain kept day
      (record { chain_id = day; head_hash = genesis_hash plain day; head_seq = 0 }) event at

-- Its members in the other order.
abbrev rewritten : AuditRow
rewritten = record first_row { old_value = ColumnValue.parsed ba }

abbrev cursor : Cursor
cursor = record { expected_prev = first_row.entry_hash; expected_seq = 2; entries = 1 }

check_rows-tamper_example :
    build_canonical (row_fields day first_row) ≡ build_canonical (row_fields day rewritten)
unfolding check_rows chained_row start easygas_guide_server.Common.text_eq
    easygas_guide_server.AuditChain.Canonical.text_leb
check_rows-tamper_example =
    check_rows-tamper plain day [] [] first_row rewritten (start plain day) cursor cursor
      (λ x y h. h) refl refl refl

rising : IsAscending (chain_rows day two.rows)
unfolding IsAscending chain_rows easygas_guide_server.Common.sort_on
    easygas_guide_server.Common.filter append_chained easygas_guide_server.Common.find
    easygas_guide_server.Common.any easygas_guide_server.Common.text_eq
    easygas_guide_server.Common.update
rising = ((ground arith, tt), (tt, tt))

positive : All (λ (r : AuditRow). 0 < r.chain_seq) (chain_rows day two.rows)
unfolding chain_rows easygas_guide_server.Common.sort_on easygas_guide_server.Common.filter
    append_chained easygas_guide_server.Common.find easygas_guide_server.Common.any
    easygas_guide_server.Common.text_eq easygas_guide_server.Common.update
positive = (ground arith, (ground arith, tt))

two_rows : length (chain_rows day two.rows) < 3
unfolding chain_rows easygas_guide_server.Common.sort_on easygas_guide_server.Common.filter
    append_chained easygas_guide_server.Common.find easygas_guide_server.Common.any
    easygas_guide_server.Common.text_eq easygas_guide_server.Common.update
two_rows = ground arith

verify_chain-check_rows_example :
    verify_chain plain 3 1 day two.rows
    ≡ some (check_rows plain day (chain_rows day two.rows) (start plain day))
verify_chain-check_rows_example =
    verify_chain-check_rows plain day two.rows 3 1 (ground arith) rising positive two_rows

abbrev two_writes : List Write
two_writes =
    record { chain_id = day; created_at = at; entry = event }
    ∷ record { chain_id = text "2026-01-02"; created_at = at; entry = event }
    ∷ []

both_kept : All (λ w. IsKept kept w.entry) two_writes
both_kept = (event-IsKept, (event-IsKept, tt))

short : length (written plain kept two_writes).rows < 3
unfolding written append_chained easygas_guide_server.Common.find easygas_guide_server.Common.any
    easygas_guide_server.Common.text_eq easygas_guide_server.Common.update
short = ground arith

verify_audit_chains-written_example :
    (result : VerifyResult) × (verify_audit_chains plain 3 1 none (written plain kept two_writes)
      ≡ some result)
    × (result.is_ok ≡ true)
verify_audit_chains-written_example =
    verify_audit_chains-written plain kept two_writes 3 1 none both_kept (ground arith) short
