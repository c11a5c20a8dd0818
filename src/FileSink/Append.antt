-- ===== src/FileSink/Append.antt =====
-- What FileSink::Impl::write of src/file_sink.cpp leaves in the file.
use player_trace_sdk.Base.{
  ℕ, ◌/◌, ◌+◌, ◌≡◌, refl, sym, ap, ◌∙◌, Bool, true, false, List, [], ◌∷◌, ◌++◌, append_assoc,
  append-nil, Option, none, some, length, take, ◌==◌, ==_iff, inl, inr, Bool-cases, codes, arith,
  if◌then◌else◌,
}
use player_trace_sdk.Types.{Bytes, SerializedEvent}
use player_trace_sdk.Validator.Keys.{is_empty}
use player_trace_sdk.Store.Action.{Action, ◌>>◌, return, try}
use player_trace_sdk.FileSink.{Files, no_fault, put, write_event, write_events, sync_if, append}

-- One line for each event.
unfoldable pub lines : List SerializedEvent → Bytes
lines [] = []
lines (e ∷ rest) = (e.json ++ 10 ∷ []) ++ lines rest

pub take-length-append : (a x : Bytes) → take (length a) (a ++ x) ≡ a
take-length-append [] x = refl
take-length-append (b ∷ a) x = ap (b ∷◌) (take-length-append a x)

pub try-good :
    {W A : Type 0} (f : W → Bool × W) (m : Action W A) (w : W)
    → (f w).0 ≡ true
    → (try f >> m) w ≡ m (f w).1
try-good f m w good = ground arith

try-bad :
    {W A : Type 0} (f : W → Bool × W) (m : Action W A) (w : W)
    → (f w).0 ≡ false
    → (try f >> m) w ≡ (none, (f w).1)
try-bad f m w bad = ground arith

fault-on :
    {W A : Type 0} (files : Files W) (operation : Bytes) (m : Action W A) (w : W)
    → Files.fault files operation w ≡ true
    → (no_fault files operation >> m) w ≡ (none, w)
fault-on files operation m w h = ground arith

fault-off :
    {W A : Type 0} (files : Files W) (operation : Bytes) (m : Action W A) (w : W)
    → Files.fault files operation w ≡ false
    → (no_fault files operation >> m) w ≡ m w
fault-off files operation m w h = ground arith

module _ {W : Type 0} (files : Files W) where
  open files use {
    seek_to_end, seek_end, fwrite, fputc, fflush, clearerr, sync, truncate, fault, disk, pending,
    at_end,
  }

  -- The stream stands at the end of the file, which has at most grown.
  abbrev pub Grows : W → W → Type 0
  Grows w w' = (at_end w' ≡ true) × (x : Bytes) × (disk w' ≡ disk w ++ x)

  abbrev pub total : W → Bytes
  total w = disk w ++ pending w

  abbrev pub Unbuffered : W → W → Type 0
  Unbuffered w w' = (at_end w' ≡ true) × (disk w' ≡ total w) × (pending w' ≡ [])

  abbrev pub Untouched : W → W → Type 0
  Untouched w w' = (at_end w' ≡ at_end w) × (disk w' ≡ disk w) × (pending w' ≡ pending w)

  -- The C standard library and POSIX on these calls.
  pub record FileLaws : Type 0 where
    pub sought :
        (w : W) (n : ℕ)
        → (seek_to_end w).0 ≡ some n
        → Unbuffered w (seek_to_end w).1 × (n ≡ length (disk (seek_to_end w).1))
    pub sought_end : (w : W) → (seek_end w).0 ≡ true → Unbuffered w (seek_end w).1
    pub wrote :
        (bytes : Bytes) (w : W)
        → at_end w ≡ true
        → Grows w (fwrite bytes w).1
          × ((fwrite bytes w).0 ≡ length bytes → total (fwrite bytes w).1 ≡ total w ++ bytes)
    pub wrote_byte :
        (b : ℕ) (w : W)
        → at_end w ≡ true
        → Grows w (fputc b w).1 × ((fputc b w).0 ≡ true → total (fputc b w).1 ≡ total w ++ b ∷ [])
    pub flushed :
        (w : W)
        → at_end w ≡ true
        → Grows w (fflush w).1 × ((fflush w).0 ≡ true → Unbuffered w (fflush w).1)
    pub cleared : (w : W) → Untouched w (clearerr w)
    pub synced : (w : W) → Untouched w (sync w).1
    pub truncated :
        (n : ℕ) (w : W)
        → (truncate n w).0 ≡ true
        → (disk (truncate n w).1 ≡ take n (disk w)) × (pending (truncate n w).1 ≡ pending w)

  Grows-trans : (w w' w'' : W) → Grows w w' → Grows w' w'' → Grows w w''
  Grows-trans w w' w'' (a, x, e) (b, y, f) =
      (b, x ++ y, f ∙ ap (λ t. t ++ y) e ∙ append_assoc (disk w) x y)

  Grows-refl : (w : W) → at_end w ≡ true → Grows w w
  Grows-refl w a = (a, [], sym (append-nil (disk w)))

  abbrev Appended : Bytes → W → Option (Unit {0}) → W → Type 0
  Appended bytes w none w' = Grows w w'
  Appended bytes w (some _) w' = Grows w w' × (total w' ≡ total w ++ bytes)

  record Appends (m : Action W (Unit {0})) (bytes : Bytes) : Type 0 where
    appended : (w : W) → at_end w ≡ true → Appended bytes w (m w).0 (m w).1

  further :
      (a b : Bytes) (w w' : W) (r : Option (Unit {0})) (w'' : W)
      → Grows w w'
      → total w' ≡ total w ++ a
      → Appended b w' r w''
      → Appended (a ++ b) w r w''
  further a b w w' none w'' g e h = Grows-trans w w' w'' g h
  further a b w w' (some _) w'' g e (h, f) =
      (Grows-trans w w' w'' g h, f ∙ ap (λ t. t ++ b) e ∙ append_assoc (total w) a b)

  then_more :
      (k : Action W (Unit {0})) (a b : Bytes) (w : W) (r : Option (Unit {0})) (w' : W)
      → Appended a w r w'
      → Appends k b
      → Appended (a ++ b) w (((λ (_ : W). (r, w')) >> k) w).0 (((λ (_ : W). (r, w')) >> k) w).1
  then_more k a b w none w' h s = h
  then_more k a b w (some _) w' (g, e) s =
      further a b w w' (k w').0 (k w').1 g e (s.appended w' g.0)

  Appends->> :
      (m k : Action W (Unit {0})) (a b : Bytes)
      → Appends m a
      → Appends k b
      → Appends (m >> k) (a ++ b)
  Appends->> m k a b h s = record {
    appended = λ w end. then_more k a b w (m w).0 (m w).1 (h.appended w end) s;
  }

  Appends-return : Appends (return tt) []
  Appends-return = record { appended = λ w end. (Grows-refl w end, sym (append-nil (total w))) }

  Appends-no_fault : (operation : Bytes) → Appends (no_fault files operation) []
  Appends-no_fault operation = record {
    appended = λ w end. elim (Bool-cases (fault operation w)) [
      | inl e ↦ rw e (Grows-refl w end)
      | inr e ↦ rw e (Grows-refl w end, sym (append-nil (total w)))
    ];
  }

  module _ (laws : FileLaws) where
    open laws use {sought, sought_end, wrote, wrote_byte, flushed, cleared, synced, truncated}

    put-nonempty :
        (json : Bytes) (w : W)
        → is_empty json ≡ false
        → put files json w
          ≡ (if (fwrite json w).0 == length json then some tt else none, (fwrite json w).1)
    unfolding put
    put-nonempty json w e = rw e refl

    nothing : (json : Bytes) → is_empty json ≡ true → json ≡ []
    nothing [] e = refl
    nothing (b ∷ json) e = ground (arith, e)

    Appends-put : (json : Bytes) → Appends (put files json) json
    unfolding put
    Appends-put json = record {
      appended = λ w end. elim (Bool-cases (is_empty json)) [
        | inl e ↦ rw e (
          Grows-refl w end,
          sym (append-nil (total w)) ∙ ap (λ x. total w ++ x) (sym (nothing json e)),
        )
        | inr e ↦ rw (put-nonempty json w e) (elim (Bool-cases ((fwrite json w).0 == length json)) [
          | inl all ↦
              let (g, t) = wrote json w end in
              rw all (g, t ((==_iff (fwrite json w).0 (length json)).0 all))
          | inr short ↦ rw short (wrote json w end).0
        ])
      ];
    }

    Appends-fputc : (b : ℕ) → Appends (try (fputc b)) (b ∷ [])
    Appends-fputc b = record {
      appended = λ w end. elim (Bool-cases (fputc b w).0) [
        | inl good ↦ let (g, t) = wrote_byte b w end in rw good (g, t good)
        | inr bad ↦ rw bad (wrote_byte b w end).0
      ];
    }

    grows :
        (bytes : Bytes) (w : W) (r : Option (Unit {0})) (w' : W)
        → Appended bytes w r w'
        → Grows w w'
    grows bytes w none w' g = g
    grows bytes w (some _) w' (g, _) = g

    torn : (json : Bytes) (w : W) → at_end w ≡ true → Grows w (put files json w).1
    torn json w end =
        grows json w (put files json w).0 (put files json w).1 ((Appends-put json).appended w end)

    Appends-write_event : (e : SerializedEvent) → Appends (write_event files e) (e.json ++ 10 ∷ [])
    unfolding write_event
    Appends-write_event e = record {
      appended = λ w end. elim (Bool-cases (fault (codes "partial_write") w)) [
        | inl h ↦ rw h (torn (take (length e.json / 2 + 1) e.json) w end)
        | inr h ↦ rw h (
            (Appends->> _ (try (fputc 10)) e.json (10 ∷ [])
                (Appends->> (no_fault files (codes "write")) (put files e.json) [] e.json
                  (Appends-no_fault (codes "write")) (Appends-put e.json))
                (Appends-fputc 10)).appended
              w end)
      ];
    }

    Appends-write_events :
        (events : List SerializedEvent) → Appends (write_events files events) (lines events)
    unfolding write_events lines
    Appends-write_events [] = Appends-return
    Appends-write_events (e ∷ rest) =
        Appends->> (write_event files e) (write_events files rest) (e.json ++ 10 ∷ []) (lines rest)
          (Appends-write_event e) (Appends-write_events rest)

    abbrev Settled : W → Option (Unit {0}) → W → Type 0
    Settled w none w' = Grows w w'
    Settled w (some _) w' = Unbuffered w w'

    sync_after :
        (w w' : W) → Grows w w' → Unbuffered w w' → Grows w (sync w').1 × Unbuffered w (sync w').1
    sync_after w w' (end, x, g) (_, d, p) =
        let (e', d', p') = synced w' in ((e' ∙ end, x, d' ∙ g), (e' ∙ end, d' ∙ d, p' ∙ p))

    settle_sync :
        (durable : Bool) (w w' : W)
        → Grows w w'
        → Unbuffered w w'
        → Settled w (sync_if files durable w').0 (sync_if files durable w').1
    unfolding sync_if
    settle_sync false w w' g u = u
    settle_sync true w w' g u = elim (Bool-cases (fault (codes "sync") w')) [
      | inl h ↦ rw (fault-on files (codes "sync") (try sync) w' h) g
      | inr h ↦ rw (fault-off files (codes "sync") (try sync) w' h) (elim (Bool-cases (sync w').0) [
        | inl good ↦ rw good (sync_after w w' g u).1
        | inr bad ↦ rw bad (sync_after w w' g u).0
      ])
    ]

    settle_flush :
        (durable : Bool) (w : W)
        → at_end w ≡ true
        → Settled w
            ((try fflush >> sync_if files durable) w).0
            ((try fflush >> sync_if files durable) w).1
    settle_flush durable w end = elim (Bool-cases (fflush w).0) [
      | inl good ↦
          let (g, u) = flushed w end in
          rw (try-good fflush (sync_if files durable) w good)
            (settle_sync durable w (fflush w).1 g (u good))
      | inr bad ↦ rw (try-bad fflush (sync_if files durable) w bad) (flushed w end).0
    ]

    settle :
        (durable : Bool) (w : W)
        → at_end w ≡ true
        → Settled w
            ((no_fault files (codes "flush") >> (try fflush >> sync_if files durable)) w).0
            ((no_fault files (codes "flush") >> (try fflush >> sync_if files durable)) w).1
    settle durable w end = elim (Bool-cases (fault (codes "flush") w)) [
      | inl h ↦
          rw (fault-on files (codes "flush") (try fflush >> sync_if files durable) w h)
            (Grows-refl w end)
      | inr h ↦
          rw (fault-off files (codes "flush") (try fflush >> sync_if files durable) w h)
            (settle_flush durable w end)
    ]

    -- All the lines are in the file and the buffer is empty, or the file has grown at most.
    abbrev pub Finished : List SerializedEvent → W → Option (Unit {0}) → W → Type 0
    Finished events w none w' = Grows w w'
    Finished events w (some _) w' = (disk w' ≡ total w ++ lines events) × (pending w' ≡ [])

    finish_settled :
        (events : List SerializedEvent) (w w' : W) (r : Option (Unit {0})) (w'' : W)
        → Grows w w'
        → total w' ≡ total w ++ lines events
        → Settled w' r w''
        → Finished events w r w''
    finish_settled events w w' none w'' g e h = Grows-trans w w' w'' g h
    finish_settled events w w' (some _) w'' g e (_, d, p) = (d ∙ e, p)

    finish_written :
        (durable : Bool) (events : List SerializedEvent) (w : W) (r : Option (Unit {0})) (w' : W)
        → Appended (lines events) w r w'
        → (let m =
              (λ (_ : W). (r, w'))
              >> (no_fault files (codes "flush") >> (try fflush >> sync_if files durable)) in
            Finished events w (m w).0 (m w).1)
    finish_written durable events w none w' h = h
    finish_written durable events w (some _) w' (g, e) =
        let m = no_fault files (codes "flush") >> (try fflush >> sync_if files durable) in
        finish_settled events w w' (m w').0 (m w').1 g e (settle durable w' g.0)

    pub append_lem :
        (durable : Bool) (events : List SerializedEvent) (w : W)
        → at_end w ≡ true
        → Finished events w (append files durable events w).0 (append files durable events w).1
    unfolding append
    append_lem durable events w end =
        finish_written durable events w (write_events files events w).0
          (write_events files events w).1 ((Appends-write_events events).appended w end)
