-- ===== src/Store/Transactions/Deletes.antt =====
-- delete_ids, acknowledge and delete_rowids of src/sqlite_store.cpp.
use player_trace_sdk.Base.{
  ℕ, ◌+◌, ◌<◌, ◌≤◌, ◌≡◌, ◌≢◌, ◌⊎◌, refl, ap, ◌∙◌, inl, inr, not, List, [], ◌∷◌, Option, none, some,
  length, Bool-cases, ◌==◌, ==_iff, codes, arith, if◌then◌else◌,
}
use player_trace_sdk.Base.Words.{u64_mod, add64}
use player_trace_sdk.Types.{Bytes}
use player_trace_sdk.Store.Action.{◌>>=◌, return, fail}
use player_trace_sdk.Store.Sqlite.{
  Sqlite, Tables, Row, delete_event, delete_row, prepare, bind_int, reset, clear_bindings, effect,
  remove_id, remove_row,
}
use player_trace_sdk.Store.Transactions.{
  step_changes, delete_ids_loop, delete_ids, acknowledge, delete_rowids_loop, delete_rowids,
}
use player_trace_sdk.Store.Transactions.Rules.{
  Post, Runs, Runs->>=, Runs-weaken, Runs-first, Runs-return, Runs-no_fault, Runs-call, Runs-run,
  Runs-bind_string, Runs-step_by_id, Runs-step_by_row,
}
use player_trace_sdk.Store.Transactions.Atomic.{
  Result, IsAtomic, transaction-IsAtomic, no_fault-IsAtomic,
}

unfoldable pub remove_ids : List Bytes → List Row → List Row
remove_ids [] rows = rows
remove_ids (id ∷ rest) rows = remove_ids rest (remove_id id rows)

unfoldable pub remove_rows : List ℕ → List Row → List Row
remove_rows [] rows = rows
remove_rows (rowid ∷ rest) rows = remove_rows rest (remove_row rowid rows)

-- The rows that `f` leaves, nothing else changed, and the number of the rows removed, after `before`
-- others: exact below 2^64, and never too high.
abbrev pub Deletes : (List Row → List Row) → ℕ → Post ℕ
Deletes f before n t t' =
    (t'.events ≡ f t.events)
    × (t'.meta ≡ t.meta)
    × (before + length t.events < u64_mod → n + length t'.events ≡ before + length t.events)
    × (n + length t'.events ≤ before + length t.events)

module _ {D : Type 0} (db : Sqlite D) where
  open db use {call, committed}

  Runs-delete_ids_loop :
      (ids : List Bytes) (removed : ℕ)
      → Runs db (delete_ids_loop db ids removed) (Deletes (remove_ids ids) removed)
  unfolding delete_ids_loop remove_ids effect
  Runs-delete_ids_loop [] removed = Runs-weaken db (Runs-return db removed) (λ n t t' (e, s).
      let l = ap (λ (x : Tables). length x.events) s in
      (
        ap (λ (x : Tables). x.events) s,
        ap (λ (x : Tables). x.meta) s,
        λ small. omega (arith, e, l),
        omega (arith, e, l),
      ))
  Runs-delete_ids_loop (id ∷ rest) removed = Runs-first db _ _ (Runs-bind_string db 1 id) (
      Runs-first db _ _ (Runs-no_fault db (codes "step_delete")) (
        Runs-weaken db
          (Runs->>= db (step_changes db (delete_event id)) _ (Runs-step_by_id db id) (λ changed.
            Runs-first db _ _ (Runs-call db reset) (
              Runs-first db _ _ (Runs-call db clear_bindings)
                (Runs-delete_ids_loop rest (add64 removed changed)))))
          (λ n t t'' (changed, t', ((_, e), c), (e', m', count, fewer)). (
            e' ∙ ap (λ (x : Tables). remove_ids rest x.events) e,
            m' ∙ ap (λ (x : Tables). x.meta) e,
            λ small. let total = count (omega (arith, c)) in omega (arith, c, total),
            omega (arith, c, fewer),
          ))))

  Runs-delete_rowids_loop :
      (rowids : List ℕ) (removed : ℕ)
      → Runs db (delete_rowids_loop db rowids removed) (Deletes (remove_rows rowids) removed)
  unfolding delete_rowids_loop remove_rows effect
  Runs-delete_rowids_loop [] removed = Runs-weaken db (Runs-return db removed) (λ n t t' (e, s).
      let l = ap (λ (x : Tables). length x.events) s in
      (
        ap (λ (x : Tables). x.events) s,
        ap (λ (x : Tables). x.meta) s,
        λ small. omega (arith, e, l),
        omega (arith, e, l),
      ))
  Runs-delete_rowids_loop (rowid ∷ rest) removed =
      Runs-first db _ _ (Runs-call db (bind_int 1 rowid)) (
        Runs-weaken db
          (Runs->>= db (step_changes db (delete_row rowid)) _ (Runs-step_by_row db rowid)
            (λ changed. Runs-first db _ _ (Runs-call db reset) (
              Runs-first db _ _ (Runs-run db clear_bindings)
                (Runs-delete_rowids_loop rest (add64 removed changed)))))
          (λ n t t'' (changed, t', ((_, e), c), (e', m', count, fewer)). (
            e' ∙ ap (λ (x : Tables). remove_rows rest x.events) e,
            m' ∙ ap (λ (x : Tables). x.meta) e,
            λ small. let total = count (omega (arith, c)) in omega (arith, c, total),
            omega (arith, c, fewer),
          )))

  -- delete_ids commits the removal of the rows with these ids and answers with their number (below
  -- 2^64), or it fails and what is committed stays as it was.
  pub delete_ids-IsAtomic :
      (ids : List Bytes) → IsAtomic db (delete_ids db ids) (Deletes (remove_ids ids) 0)
  unfolding delete_ids remove_ids
  delete_ids-IsAtomic [] = λ d. (refl, refl, λ small. refl, omega arith)
  delete_ids-IsAtomic (id ∷ rest) =
      no_fault-IsAtomic db (codes "begin_delete") _ (Deletes (remove_ids (id ∷ rest)) 0) (
        transaction-IsAtomic db _ (Deletes (remove_ids (id ∷ rest)) 0) (
          Runs-first db _ _
            (Runs-call db (prepare (codes "DELETE FROM events WHERE event_id = ?;")))
            (Runs-weaken db
              (Runs->>= db (delete_ids_loop db (id ∷ rest) 0) _ (Runs-delete_ids_loop (id ∷ rest) 0)
                (λ n.
                  Runs-first db _ _ (Runs-no_fault db (codes "commit_delete")) (Runs-return db n)))
              (λ n t t'' (k, t', (e, m, count, fewer), (same, s)). (
                ap (λ (x : Tables). x.events) s ∙ e,
                ap (λ (x : Tables). x.meta) s ∙ m,
                λ small.
                    let total = count small in
                    let l = ap (λ (x : Tables). length x.events) s in omega (arith, total, l, same),
                let l = ap (λ (x : Tables). length x.events) s in omega (arith, fewer, l, same),
              )))))

  -- delete_rowids commits the removal of the rows with these rowids and answers with their number
  -- (below 2^64), or it fails and what is committed stays as it was.
  pub delete_rowids-IsAtomic :
      (rowids : List ℕ) → IsAtomic db (delete_rowids db rowids) (Deletes (remove_rows rowids) 0)
  unfolding delete_rowids remove_rows
  delete_rowids-IsAtomic [] = λ d. (refl, refl, λ small. refl, omega arith)
  delete_rowids-IsAtomic (rowid ∷ rest) =
      no_fault-IsAtomic db (codes "begin_quarantine") _ (Deletes (remove_rows (rowid ∷ rest)) 0) (
        transaction-IsAtomic db _ (Deletes (remove_rows (rowid ∷ rest)) 0) (
          Runs-first db _ _ (Runs-call db (prepare (codes "DELETE FROM events WHERE rowid = ?;")))
            (Runs-delete_rowids_loop (rowid ∷ rest) 0)))

  -- A success has removed a row for each id. A failure has removed none, or the rows with these ids
  -- were not as many as the ids.
  abbrev pub Acknowledges : List Bytes → D → Option ℕ → D → Type 0
  Acknowledges ids d none d' =
      (committed d' ≡ committed d)
      ⊎ (((committed d').events ≡ remove_ids ids (committed d).events)
          × (length ids + length (committed d').events ≢ length (committed d).events))
  Acknowledges ids d (some n) d' =
      ((committed d').events ≡ remove_ids ids (committed d).events)
      × (n ≡ length ids)
      × (length ids + length (committed d').events ≡ length (committed d).events)

  comparing :
      (ids : List Bytes) (d : D) (r : Option ℕ) (d' : D)
      → length (committed d).events < u64_mod
      → Result db (Deletes (remove_ids ids) 0) d r d'
      → Acknowledges ids d
          (((λ _. (r, d')) >>= λ n. (if not (n == length ids) then fail else return n)) d).0
          (((λ _. (r, d')) >>= λ n. (if not (n == length ids) then fail else return n)) d).1
  comparing ids d none d' small same = inl same
  comparing ids d (some n) d' small (e, m, count, _) = elim (Bool-cases (n == length ids)) [
    | inl b ↦
        let total = count (omega (arith, small)) in
        let k = (==_iff n (length ids)).0 b in rw b (e, k, omega (arith, total, k))
    | inr b ↦
        let total = count (omega (arith, small)) in rw b (inr (e, λ k. ground (arith, total, k, b)))
  ]

  -- With fewer than 2^64 committed rows acknowledge answers with success when a row went away for
  -- each id, and with StorageError otherwise: then the committed rows are unchanged, or those with the ids are gone and were not as
  -- many as the ids.
  pub acknowledge_lem :
      (ids : List Bytes) (d : D)
      → length (committed d).events < u64_mod
      → Acknowledges ids d (acknowledge db ids d).0 (acknowledge db ids d).1
  unfolding acknowledge
  acknowledge_lem ids d small =
      comparing ids d (delete_ids db ids d).0 (delete_ids db ids d).1 small
        (delete_ids-IsAtomic ids d)
