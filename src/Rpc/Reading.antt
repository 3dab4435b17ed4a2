-- ===== src/Rpc/Reading.antt =====
-- The methods of src/fake-rpc.ts that only read: events, transactions, ledgers, entries.
use lite_soroban.Prelude.{
  ℕ, zero, suc, min, ℤ, pos, ◌+ℤ◌, ◌-ℤ◌, ltb_ℤ, pos_part, Bool, true, false, not, ◌&&◌, ◌||◌, List,
  [], ◌∷◌, map, Option, none, some, if◌then◌else◌, ltb, leb, any, take, select, same_bytes,
}
use lite_soroban.Xdr.{Bytes, LedgerKey}
use lite_soroban.Ledger.{Ledger, get_entry, get_entry_ttl}
use lite_soroban.Classic.Outcome.{TxResultCode, tx_success, tx_fee_bump_inner_success}
use lite_soroban.Rpc.State.{
  Adapter, BufferedEvent, SubmittedTx, EventFilter, EventsQuery, EventsPage, RawTransaction,
  LedgerInfo, EntryInfo, Response, rpc_error, start_out_of_range, ledgers_page, transaction_found,
  transaction_not_found, find_tx, last_closed,
}

-- "contract", the type of every event in the log.
abbrev pub contract_kind : Bytes
contract_kind = 99 ∷ 111 ∷ 110 ∷ 116 ∷ 114 ∷ 97 ∷ 99 ∷ 116 ∷ []

-- The contract's address, or the empty string.
abbrev pub address_of : Option Bytes → Bytes
address_of none = []
address_of (some c) = c

abbrev pub refused_contract : List Bytes → Bytes → Bool
refused_contract [] c = false
refused_contract (i ∷ is) c = not (any (λ x. same_bytes x c) (i ∷ is))

-- An empty type is no type.
abbrev pub refused_kind : Option Bytes → Bool
refused_kind none = false
refused_kind (some []) = false
refused_kind (some (b ∷ bs)) = not (same_bytes (b ∷ bs) contract_kind)

unfoldable pub passes_filter : EventFilter → BufferedEvent → Bool
passes_filter f e =
    not (refused_contract f.contract_ids (address_of e.contract_id)) && not (refused_kind f.kind)

abbrev pub passes_some : List EventFilter → BufferedEvent → Bool
passes_some [] e = true
passes_some (f ∷ fs) e = any (λ g. passes_filter g e) (f ∷ fs)

abbrev pub or_zero_ledger : Option ℕ → ℕ
or_zero_ledger none = 0
or_zero_ledger (some n) = n

unfoldable pub matches : EventsQuery → BufferedEvent → Bool
unfolding passes_filter
matches q e = not (ltb e.ledger (or_zero_ledger q.start_ledger)) && passes_some q.filters e

-- A limit of 0 is no limit.
abbrev pub limited : Option ℕ → List BufferedEvent → List BufferedEvent
limited none es = es
limited (some zero) es = es
limited (some (suc n)) es = take (suc n) es

abbrev cursor_of : BufferedEvent → ℕ × ℕ
cursor_of e = (e.ledger, e.position)

abbrev pub last_cursor : List BufferedEvent → Option (ℕ × ℕ)
last_cursor [] = none
last_cursor (e ∷ []) = some (cursor_of e)
last_cursor (e ∷ f ∷ es) = last_cursor (f ∷ es)

-- The query's cursor is not read.
unfoldable pub get_events : Adapter → Ledger → EventsQuery → EventsPage
unfolding matches
get_events a l q =
    let page = limited q.limit (select (matches q) a.event_log) in
    record { events = page; latest = last_closed l; cursor = last_cursor page }

abbrev is_success : TxResultCode → Bool
is_success tx_success = true
is_success tx_fee_bump_inner_success = true
is_success _ = false

unfoldable pub raw_transaction : SubmittedTx → RawTransaction
raw_transaction t = record { succeeded = is_success t.outcome.code; tx = t }

unfoldable pub get_transactions : Adapter → Option ℕ → List RawTransaction
unfolding raw_transaction
get_transactions a start =
    map raw_transaction (select (λ t. leb (or_zero_ledger start) t.ledger) a.submitted)

abbrev pub start_of : Option ℤ → ℤ → ℤ
start_of none latest = latest
start_of (some s) latest = s

abbrev limit_of : Option ℕ → ℕ
limit_of none = 1
limit_of (some n) = n

-- `Array.from({ length: count }, …)` from `start` on.
unfoldable pub ledgers_from : ℤ → ℕ → ℕ → List LedgerInfo
ledgers_from start time zero = []
ledgers_from start time (suc n) =
    record { sequence = start; close_time = time } ∷ ledgers_from (start +ℤ pos 1) time n

abbrev pub count_of : Option ℕ → ℤ → ℤ → ℕ
count_of limit start latest = min (min (limit_of limit) 200) (pos_part ((latest -ℤ start) +ℤ pos 1))

unfoldable pub get_ledgers : Ledger → Option ℤ → Option ℕ → Response
unfolding ledgers_from
get_ledgers l start limit =
    let latest = last_closed l in
    let from = start_of start latest in
    let count = count_of limit from latest in
    if ltb_ℤ from (pos 1) || ltb_ℤ latest from
    then rpc_error (start_out_of_range from latest)
    else ledgers_page (record {
      ledgers = ledgers_from from l.timestamp count;
      latest = latest;
      cursor = (from +ℤ pos count) -ℤ pos 1;
    })

abbrev entry_info : Ledger → LedgerKey → Option EntryInfo
entry_info l k = elim (get_entry l k) [
  | none ↦ none
  | some e ↦ some (record {
    key = k;
    content = e.content;
    last_modified = last_closed l;
    live_until = get_entry_ttl l k;
  })
]

-- `map` with `filter(Boolean)`.
unfoldable pub get_ledger_entries : Ledger → List LedgerKey → List EntryInfo
get_ledger_entries l [] = []
get_ledger_entries l (k ∷ ks) = elim (entry_info l k) [
  | none ↦ get_ledger_entries l ks
  | some i ↦ i ∷ get_ledger_entries l ks
]

unfoldable pub get_transaction_response : Adapter → Ledger → Bytes → Response
unfolding find_tx raw_transaction
get_transaction_response a l hash = elim (find_tx hash a.submitted) [
  | none ↦ transaction_not_found (last_closed l)
  | some t ↦ transaction_found (raw_transaction t) (last_closed l)
]
