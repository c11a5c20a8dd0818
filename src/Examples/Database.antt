-- ===== src/Examples/Database.antt =====
-- The theorems on the store, with a connection in memory.
use player_trace_sdk.Base.{
  bytes_eq, ◌==◌, ℕ, ◌+◌, ◌-◌, ◌≤◌, ◌≡◌, none, refl, sym, inl, inr, Bool, true, false, not, List,
  [], ◌∷◌, length, length-take, take, leb, some, Bool-cases, codes, arith, if◌then◌else◌,
}
use mathlib.Core.Option.{some-injective}
use player_trace_sdk.Base.Int.{pos}
use player_trace_sdk.Types.{Bytes}
use player_trace_sdk.Validator.Keys.{is_empty}
use player_trace_sdk.Store.Interface.{StoredRecord}
use player_trace_sdk.Store.Sqlite.{
  Call, prepare, bind_text, bind_int, bind_signed, reset, clear_bindings, insert_row, has_row,
  Sqlite, Tables, Row, Change, Sql, begin_immediate, commit, rollback, change, delete_event,
  delete_row, effect, remove_id, remove_row, has_key,
}
use player_trace_sdk.Store.Transactions.{
  insert, insert_loop, insert_one, bind_string, transaction, or_rollback, acknowledge,
}
use player_trace_sdk.Store.Transactions.Atomic.{Result}
use player_trace_sdk.Store.Transactions.Methods.{Inserts, insert-IsAtomic}
use player_trace_sdk.Store.Transactions.Deletes.{Acknowledges, acknowledge_lem}
use player_trace_sdk.Store.SqlText.{
  strip_sql_noise, scan, turn, ending, head_is, is_quote, parse_schema_version, parse_digits,
  collapse_spaces, to_lower_ascii, is_space, check_expressions, checks_from, check_at,
  parenthesised, balanced, leading_blanks, starts_with, is_ident_char,
}
use player_trace_sdk.Store.SqlText.Clean.{is_clean, strip_sql_noise-is_clean}
use player_trace_sdk.Store.Reads.Fetch.{Fetches, fetch_pending-Fetches}
use player_trace_sdk.Store.Reads.{
  fetch_pending, prepare_fetch, row_limit, read_rows, sort_out, unusable, quarantine, Queries,
  scalar_answer, ascending,
}

-- With what is bound to the first parameter of a statement.
pub data Connection : Type 0 where
  outside : ℕ → Tables → Connection
  inside : ℕ → (saved view : Tables) → ℕ → Connection

abbrev pub saved_tables : Connection → Tables
saved_tables (outside b t) = t
saved_tables (inside b t t' n) = t

abbrev pub view_tables : Connection → Tables
view_tables (outside b t) = t
view_tables (inside b t t' n) = t'

abbrev pub parameter : Connection → ℕ
parameter (outside b t) = b
parameter (inside b t t' n) = b

abbrev with_parameter : ℕ → Connection → Connection
with_parameter n (outside b t) = outside n t
with_parameter n (inside b t t' k) = inside n t t' k

-- A call binds a number to the first parameter, or leaves it.
abbrev bind : Call → Connection → Connection
bind (bind_int i n) d = if i == 1 then with_parameter n d else d
bind _ d = d

abbrev is_outside : Connection → Bool
is_outside (outside b t) = true
is_outside (inside b t t' n) = false

abbrev last_changes : Connection → ℕ
last_changes (outside b t) = 0
last_changes (inside b t t' n) = n

abbrev free_rowid : Connection → ℕ
free_rowid d = length (view_tables d).events + 1

abbrev take_effect : Change → Connection → Bool × Connection
take_effect c (outside b t) = (false, outside b t)
take_effect c (inside b t t' n) =
    let t'' = effect (length t'.events + 1) c t' in
    (true, inside b t t'' (length t'.events - length t''.events))

abbrev execute : Sql → Connection → Bool × Connection
execute begin_immediate (outside b t) = (true, inside b t t 0)
execute begin_immediate (inside b t t' n) = (false, inside b t t' n)
execute commit (outside b t) = (false, outside b t)
execute commit (inside b t t' n) = (true, outside b t')
execute rollback d = (true, outside (parameter d) (saved_tables d))
execute (change c) d = take_effect c d

length-remove_id : (id : Bytes) (rows : List Row) → length (remove_id id rows) ≤ length rows
unfolding remove_id
length-remove_id id [] = omega arith
length-remove_id id (r ∷ rows) = ground (arith, length-remove_id id rows)

length-remove_row : (n : ℕ) (rows : List Row) → length (remove_row n rows) ≤ length rows
unfolding remove_row
length-remove_row n [] = omega arith
length-remove_row n (r ∷ rows) = ground (arith, length-remove_row n rows)

pub begin-good :
    (d : Connection)
    → (execute begin_immediate d).0 ≡ true
    → (is_outside d ≡ true)
      × (is_outside (execute begin_immediate d).1 ≡ false)
      × (saved_tables (execute begin_immediate d).1 ≡ saved_tables d)
      × (view_tables (execute begin_immediate d).1 ≡ view_tables d)
begin-good (outside b t) h = (refl, refl, refl, refl)
begin-good (inside b t t' n) h = ground (arith, h)

pub begin-bad :
    (d : Connection)
    → (execute begin_immediate d).0 ≡ false
    → (is_outside (execute begin_immediate d).1 ≡ is_outside d)
      × (saved_tables (execute begin_immediate d).1 ≡ saved_tables d)
begin-bad (outside b t) h = ground (arith, h)
begin-bad (inside b t t' n) h = (refl, refl)

pub commit-good :
    (d : Connection)
    → is_outside d ≡ false
    → (execute commit d).0 ≡ true
    → (is_outside (execute commit d).1 ≡ true) × (saved_tables (execute commit d).1 ≡ view_tables d)
commit-good (outside b t) o h = ground (arith, h)
commit-good (inside b t t' n) o h = (refl, refl)

pub commit-bad :
    (d : Connection)
    → (execute commit d).0 ≡ false
    → saved_tables (execute commit d).1 ≡ saved_tables d
commit-bad (outside b t) h = refl
commit-bad (inside b t t' n) h = ground (arith, h)

pub effect-good :
    (c : Change) (d : Connection)
    → is_outside d ≡ false
    → (take_effect c d).0 ≡ true
    → (is_outside (take_effect c d).1 ≡ false)
      × (saved_tables (take_effect c d).1 ≡ saved_tables d)
      × (view_tables (take_effect c d).1 ≡ effect (free_rowid d) c (view_tables d))
effect-good c (outside b t) o h = ground (arith, o)
effect-good c (inside b t t' n) o h = (refl, refl, refl)

pub effect-bad :
    (c : Change) (d : Connection)
    → (take_effect c d).0 ≡ false
    → saved_tables (take_effect c d).1 ≡ saved_tables d
effect-bad c (outside b t) h = refl
effect-bad c (inside b t t' n) h = ground (arith, h)

pub changes-by_id :
    (id : Bytes) (d : Connection)
    → is_outside d ≡ false
    → (take_effect (delete_event id) d).0 ≡ true
    → last_changes (take_effect (delete_event id) d).1
        + length (remove_id id (view_tables d).events)
      ≡ length (view_tables d).events
unfolding effect
changes-by_id id (outside b t) o h = ground (arith, o)
changes-by_id id (inside b t t' n) o h = omega (arith, length-remove_id id t'.events)

pub changes-by_row :
    (n : ℕ) (d : Connection)
    → is_outside d ≡ false
    → (take_effect (delete_row n) d).0 ≡ true
    → last_changes (take_effect (delete_row n) d).1 + length (remove_row n (view_tables d).events)
      ≡ length (view_tables d).events
unfolding effect
changes-by_row n (outside b t) o h = ground (arith, o)
changes-by_row n (inside b t t' k) o h = omega (arith, length-remove_row n t'.events)

pub idle-view : (d : Connection) → is_outside d ≡ true → view_tables d ≡ saved_tables d
idle-view (outside b t) h = refl
idle-view (inside b t t' n) h = ground (arith, h)

with_parameter-quiet :
    (n : ℕ) (d : Connection)
    → (is_outside (with_parameter n d) ≡ is_outside d)
      × (saved_tables (with_parameter n d) ≡ saved_tables d)
      × (view_tables (with_parameter n d) ≡ view_tables d)
with_parameter-quiet n (outside b t) = (refl, refl, refl)
with_parameter-quiet n (inside b t t' k) = (refl, refl, refl)

pub bind-quiet :
    (c : Call) (d : Connection)
    → (is_outside (bind c d) ≡ is_outside d)
      × (saved_tables (bind c d) ≡ saved_tables d)
      × (view_tables (bind c d) ≡ view_tables d)
bind-quiet (prepare sql) d = (refl, refl, refl)
bind-quiet (bind_text i text) d = (refl, refl, refl)
bind-quiet (bind_int i n) d = elim (Bool-cases (i == 1)) [
  | inl e ↦ rw e (with_parameter-quiet n d)
  | inr e ↦ rw e (refl, refl, refl)
]
bind-quiet (bind_signed i z) d = (refl, refl, refl)
bind-quiet reset d = (refl, refl, refl)
bind-quiet clear_bindings d = (refl, refl, refl)

abbrev pub memory : Sqlite Connection
memory = record {
  exec = execute;
  step = take_effect;
  call = λ c d. (true, bind c d);
  fault = λ operation d. false;
  changes = last_changes;
  new_rowid = free_rowid;
  autocommit = is_outside;
  committed = saved_tables;
  current = view_tables;
  idle = idle-view;
  begin_ok = begin-good;
  begin_failed = begin-bad;
  commit_ok = commit-good;
  commit_failed = commit-bad;
  rolled_back = λ d. refl;
  change_ok = effect-good;
  change_failed = effect-bad;
  step_ok = effect-good;
  step_failed = effect-bad;
  changed_by_id = changes-by_id;
  changed_by_row = changes-by_row;
  quiet = bind-quiet;
}

abbrev place : Row → List Row → List Row
place r [] = r ∷ []
place r (x ∷ rows) =
    let others = place r rows in
    if leb r.stored.ordinal x.stored.ordinal then r ∷ x ∷ rows else x ∷ others

abbrev by_ordinal : List Row → List Row
by_ordinal [] = []
by_ordinal (r ∷ rows) = place r (by_ordinal rows)

place-ascending :
    (n : ℕ) (r : Row) (rows : List Row)
    → n ≤ r.stored.ordinal
    → ascending n rows ≡ true
    → ascending n (place r rows) ≡ true
unfolding ascending
place-ascending n r [] h up = ground (arith, h)
place-ascending n r (x ∷ rows) h up = elim (Bool-cases (leb r.stored.ordinal x.stored.ordinal)) [
  | inl low ↦ ground (arith, h, up, low)
  | inr high ↦
      let rest =
        place-ascending x.stored.ordinal r rows (ground (arith, high)) (ground (arith, up)) in
      rw high (ground (arith, h, up, rest))
]

pub by_ordinal-ascending : (rows : List Row) → ascending 0 (by_ordinal rows) ≡ true
unfolding ascending
by_ordinal-ascending [] = refl
by_ordinal-ascending (r ∷ rows) =
    place-ascending 0 r (by_ordinal rows) (omega arith) (by_ordinal-ascending rows)

pub bound-with_parameter : (n : ℕ) (d : Connection) → parameter (with_parameter n d) ≡ n
bound-with_parameter n (outside b t) = refl
bound-with_parameter n (inside b t t' k) = refl

abbrev pub lookups : Queries memory
lookups = record {
  bound = parameter;
  bound_by = λ n d good. bound-with_parameter n d;
  scalar = λ q d. (some (pos (scalar_answer q (parameter d) (view_tables d))), d);
  probe = λ key d. (some (has_key key (view_tables d).meta), d);
  select = λ limit d. ((take limit (by_ordinal (view_tables d).events), true), d);
  in_order = by_ordinal;
  is_valid_json = λ text. not (is_empty text);
  scalar_quiet = λ q d. (refl, refl, refl);
  scalar_value =
      λ q v d e. sym (some-injective (pos (scalar_answer q (parameter d) (view_tables d))) v e);
  probe_quiet = λ key d. (refl, refl, refl);
  found = λ key b d e. sym (some-injective (has_key key (view_tables d).meta) b e);
  select_quiet = λ limit d. (refl, refl, refl);
  selected = λ limit d done. refl;
  limited = λ limit d. omega (arith, length-take limit (by_ordinal (view_tables d).events));
  ordered = by_ordinal-ascending;
}

abbrev stored : Bytes → ℕ → StoredRecord
stored id ordinal = record {
  event_id = id;
  session_id = 7 ∷ [];
  sequence = ordinal;
  ordinal = ordinal;
  created_ms = pos 0;
  payload = codes "{}";
}

-- Two rows, the second of which comes first in the order of the ordinals.
abbrev pub filled : Connection
filled = outside 0 (record {
  objects = record { tables = []; indexes = [] };
  events =
      record { rowid = 1; stored = stored (9 ∷ []) 5 }
      ∷ record { rowid = 2; stored = stored (8 ∷ []) 3 }
      ∷ [];
  meta = [];
})

insert-IsAtomic_example :
    Result memory
      (Inserts (stored (9 ∷ []) 6 ∷ stored (4 ∷ []) 7 ∷ []))
      filled
      (insert memory (stored (9 ∷ []) 6 ∷ stored (4 ∷ []) 7 ∷ []) filled).0
      (insert memory (stored (9 ∷ []) 6 ∷ stored (4 ∷ []) 7 ∷ []) filled).1
insert-IsAtomic_example = insert-IsAtomic memory (stored (9 ∷ []) 6 ∷ stored (4 ∷ []) 7 ∷ []) filled

acknowledge_lem_example :
    Acknowledges memory
      ((8 ∷ []) ∷ [])
      filled
      (acknowledge memory ((8 ∷ []) ∷ []) filled).0
      (acknowledge memory ((8 ∷ []) ∷ []) filled).1
acknowledge_lem_example = acknowledge_lem memory ((8 ∷ []) ∷ []) filled (omega arith)

fetch_pending-Fetches_example :
    Fetches memory lookups 1 filled
      (fetch_pending memory lookups 1 filled).0
      (fetch_pending memory lookups 1 filled).1
fetch_pending-Fetches_example = fetch_pending-Fetches memory lookups 1 filled refl (omega arith)

-- The batch of one is the row with the lower ordinal.
oldest_first :
    (fetch_pending memory lookups 1 filled).0.events
    ≡ record { event_id = 8 ∷ []; json = codes "{}" } ∷ []
unfolding fetch_pending prepare_fetch row_limit read_rows sort_out unusable quarantine
oldest_first = refl

-- One row joins, and the other is known already.
inserted :
    length
      (saved_tables (insert memory (stored (9 ∷ []) 6 ∷ stored (4 ∷ []) 7 ∷ []) filled).1).events
    ≡ 3
unfolding insert transaction or_rollback insert_loop insert_one bind_string effect insert_row
    has_row bytes_eq
inserted = refl

-- The constraint is forged in a string, a comment and an identifier in brackets.
abbrev forged : Bytes
forged = codes "a 'CHECK''x' /* CHECK */ b [c]d -- CHECK"

strip_sql_noise-is_clean_example : is_clean (strip_sql_noise forged) ≡ true
strip_sql_noise-is_clean_example = strip_sql_noise-is_clean forged

stripped : strip_sql_noise forged ≡ codes "a     b  d  "
unfolding strip_sql_noise scan turn ending head_is is_quote
stripped = refl

versions :
    (parse_schema_version (codes "3") ≡ some 3)
    × (parse_schema_version (codes "+3") ≡ none)
    × (parse_schema_version (codes "0000000003") ≡ none)
    × (parse_schema_version (codes "999999999") ≡ some 999999999)
unfolding parse_schema_version parse_digits
versions = (refl, refl, refl, refl)

compared :
    collapse_spaces (to_lower_ascii (codes "LENGTH( event_id ) > 0")) ≡ codes "length(event_id)>0"
unfolding collapse_spaces to_lower_ascii is_space
compared = refl

-- Only a CHECK that stands as a word in front of balanced parentheses counts.
constraints :
    check_expressions (
      strip_sql_noise (
        codes "a CHECK (length(event_id) > 0), xcheck(1), check (2, 'CHECK(3)', CHECK -- (4)\n(5)"))
    ≡ codes "length(event_id)>0" ∷ codes "5" ∷ []
unfolding check_expressions checks_from check_at parenthesised balanced leading_blanks starts_with
    strip_sql_noise scan turn ending head_is is_quote to_lower_ascii collapse_spaces is_space
    is_ident_char
constraints = refl
