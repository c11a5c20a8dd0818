-- ===== src/Store/Schema/Opening/Opens.antt =====
-- open of src/sqlite_store.cpp as a whole.
use player_trace_sdk.Base.{
  ◌≡◌, refl, sym, ap, ◌∙◌, inl, inr, Bool, Option, none, some, codes, subst,
}
use player_trace_sdk.Types.{Bytes}
use player_trace_sdk.Store.Action.{
  ◌>>=◌, ◌>>◌, return, try, Ends, Ensures, Ensures->>=, Ensures-try,
}
use player_trace_sdk.Store.Sqlite.{Sqlite, Tables}
use player_trace_sdk.Store.Schema.{Inspection, prepare}
use player_trace_sdk.Store.Schema.Inspect.{inspect_and_prepare_schema, or_close, open_store}
use player_trace_sdk.Store.Schema.Opening.{Still, Reports, Stays}
use player_trace_sdk.Store.Schema.Opening.Creating.{IsCreated, IsOpen, IsLeft, Ensures-or_close}

module _ {D : Type 0} (db : Sqlite D) (inspection : Inspection D) (reports : Reports db inspection)
    (start : D) where
  open db use {committed, quiet, call}
  open inspection use {open_file, journal_mode, pragma}
  open reports use {shape, call_keeps, opened, not_opened, journal_quiet, pragma_quiet}

  abbrev Opened : D → Type 0
  Opened = IsOpen db inspection reports start

  abbrev Left : D → Type 0
  Left = IsLeft db inspection reports start

  Still-Opened : (d d' : D) → Still db shape d d' → Opened d → Opened d'
  Still-Opened d d' ((a, c, e), s) (out, inl (m, schema, k)) = (a ∙ out, inl (m, schema, c ∙ k))
  Still-Opened d d' ((a, c, e), s) (out, inr (m, n, made)) =
      (a ∙ out, inr (m, n, subst (λ (t : Tables). IsCreated tt (committed start) t) (sym c) made))

  Opened-Left : (d : D) → Opened d → Left d
  Opened-Left d (out, inl (m, schema, k)) = inl k
  Opened-Left d (out, inr made) = inr made

  -- A call that changes nothing, once the schema is accepted.
  Ensures-quiet :
      (f : D → Bool × D)
      → ((d : D) → Still db shape d (f d).1)
      → Ensures Left Opened (try f) (λ _. Opened)
  Ensures-quiet f still =
      Ensures-try f (λ d h _. Still-Opened d (f d).1 (still d) h)
        (λ d h _. Opened-Left (f d).1 (Still-Opened d (f d).1 (still d) h))

  mode_read : (r : Option (Option Bytes)) (d : D) → Opened d → Ends Left (λ _. Opened) r d
  mode_read none d h = Opened-Left d h
  mode_read (some mode) d h = h

  Ensures-settings :
      Ensures Left Opened
        (try (call (prepare (codes "PRAGMA journal_mode=WAL;")))
          >> (journal_mode >>= λ mode.
              try (pragma (codes "PRAGMA synchronous=NORMAL;"))
              >> (try (pragma (codes "PRAGMA busy_timeout=5000;")) >> return mode)))
        (λ _. Opened)
  Ensures-settings =
      Ensures->>= (try (call (prepare (codes "PRAGMA journal_mode=WAL;")))) _ (λ _. Opened)
        (Ensures-quiet (call (prepare (codes "PRAGMA journal_mode=WAL;")))
          (λ d. (quiet _ d, call_keeps _ d)))
        (λ _.
          Ensures->>= journal_mode _ (λ _. Opened)
            (record {
              after = λ d h.
                  mode_read (journal_mode d).0 (journal_mode d).1
                    (Still-Opened d (journal_mode d).1 (journal_quiet d) h);
            })
            (λ mode.
              Ensures->>= (try (pragma (codes "PRAGMA synchronous=NORMAL;"))) _ (λ _. Opened)
                (Ensures-quiet (pragma (codes "PRAGMA synchronous=NORMAL;"))
                  (pragma_quiet (codes "PRAGMA synchronous=NORMAL;")))
                (λ _.
                  Ensures->>= (try (pragma (codes "PRAGMA busy_timeout=5000;"))) (λ _. return mode)
                    (λ _. Opened)
                    (Ensures-quiet (pragma (codes "PRAGMA busy_timeout=5000;"))
                      (pragma_quiet (codes "PRAGMA busy_timeout=5000;")))
                    (λ _. record { after = λ d h. h }))))

  pub open_store_cases :
      Ends Left (λ _. Opened) (open_store db inspection start).0 (open_store db inspection start).1
  unfolding open_store
  open_store_cases =
      (Ensures->>= (try open_file) _ {bad = Left} {pre = λ d. d ≡ start}
          (λ _. Stays db inspection reports start)
          (Ensures-try open_file
            (λ d e good. let (a, c, s) = opened d good in (a, c ∙ ap committed e, s ∙ ap shape e))
            (λ d e failed. inl (not_opened d failed ∙ ap committed e)))
          (λ _.
            Ensures->>= (or_close db inspection (inspect_and_prepare_schema db inspection)) _
              (λ _. Opened) (Ensures-or_close db inspection reports start)
              (λ _. Ensures-settings))).after
        start refl
