-- ===== src/Client/Admission/Invariant.antt =====
-- The invariant of the admission state of src/client.cpp.
use player_trace_sdk.Base.{
  ℕ, ◌+◌, ◌≤◌, ◌<◌, ◌≡◌, ◌≢◌, refl, sym, subst, inl, inr, Bool, true, List, [], ◌∷◌, ◌++◌, length,
  length-append, arith, All, All-append,
}
use player_trace_sdk.Base.Words.{add64, u64_mod}
use player_trace_sdk.Types.{ConsentState, Bytes, Properties, QueuedEvent, is_granted}
use player_trace_sdk.Queue.{EventQueue}
use player_trace_sdk.Client.State.{Environment, Impl}
use player_trace_sdk.Client.Admission.{queued_event, admit_locked}
use player_trace_sdk.Client.Admission.Accept.{
  IsOpen, Admits, SameState, assigned, admit_locked_cases,
}

-- Ordinals ascend above `low` and do not pass `high`.
abbrev pub Ordered : ℕ → ℕ → List QueuedEvent → Type 0
Ordered low high [] = Unit
Ordered low high (e ∷ es) = (low < e.ordinal) × (e.ordinal ≤ high) × Ordered e.ordinal high es

pub Ordered-append :
    (low high new : ℕ) (es : List QueuedEvent) (e : QueuedEvent)
    → Ordered low high es
    → low ≤ high
    → high < new
    → e.ordinal ≡ new
    → Ordered low new (es ++ e ∷ [])
Ordered-append low high new [] e o l h p = (omega arith, omega arith, tt)
Ordered-append low high new (f ∷ es) e o l h p =
    (o.0, omega arith, Ordered-append f.ordinal high new es e o.2 o.1 h p)

abbrev pub IsCurrent : ℕ → QueuedEvent → Type 0
IsCurrent generation e = e.consent_generation ≡ generation

-- What the invariant speaks of.
pub record View : Type 0 where
  pub queue : EventQueue
  pub outstanding : ℕ
  pub cap : ℕ
  pub ordinal : ℕ
  pub generation : ℕ
  pub consent : ConsentState
  pub active : Bool

abbrev pub view : Impl → View
view im = record {
  queue = im.pipeline.queue;
  outstanding = im.pipeline.outstanding;
  cap = im.max_pending_events;
  ordinal = im.ordinal;
  generation = im.pipeline.consent_generation;
  consent = im.pipeline.consent;
  active = im.session.active;
}

pub record IsValidView (v : View) : Type 0 where
  pub bounded : length v.queue.queue ≤ v.queue.capacity
  pub capped : v.outstanding ≤ v.cap
  pub small_cap : v.cap + 2 < u64_mod
  pub ordered : Ordered 0 v.ordinal v.queue.queue
  pub current : All (IsCurrent v.generation) v.queue.queue
  pub consented : v.queue.queue ≢ [] → is_granted v.consent ≡ true
  pub session_consented : v.active ≡ true → is_granted v.consent ≡ true

-- The queue and the durable count are within their bounds, queued events stand in the order of their
-- ordinals and belong to the consent generation in force, and without consent nothing is queued and
-- no session is active.
abbrev pub IsValid : Impl → Type 0
IsValid im = IsValidView (view im)

SameState-view : (before after : Impl) → SameState before after → view after ≡ view before
SameState-view before after s = ground arith

pub SameState-IsValid :
    (before after : Impl) → SameState before after → IsValid before → IsValid after
SameState-IsValid before after s v = subst IsValidView (sym (SameState-view before after s)) v

abbrev admitted_view : QueuedEvent → Impl → View
admitted_view e im = record {
  queue = record im.pipeline.queue { queue = im.pipeline.queue.queue ++ e ∷ [] };
  outstanding = im.pipeline.outstanding + 1;
  cap = im.max_pending_events;
  ordinal = add64 im.ordinal 1;
  generation = im.pipeline.consent_generation;
  consent = im.pipeline.consent;
  active = im.session.active;
}

Admits-view :
    (env : Environment) (name : Bytes) (properties : Properties) (before after : Impl)
    → Admits env name properties before after
    → view after
      ≡ admitted_view (queued_event env name properties (assigned before.session) before) before
Admits-view env name properties before after a = ground arith

admitted_view-IsValid :
    (e : QueuedEvent) (im : Impl)
    → e.ordinal ≡ im.ordinal + 1
    → e.consent_generation ≡ im.pipeline.consent_generation
    → IsOpen im
    → im.ordinal + 1 < u64_mod
    → IsValid im
    → IsValidView (admitted_view e im)
admitted_view-IsValid e im eo eg o w v =
    let next : add64 im.ordinal 1 ≡ im.ordinal + 1 = omega arith in
    record {
      bounded = omega (arith, length-append im.pipeline.queue.queue (e ∷ []), o.room);
      capped = omega (arith, o.storable);
      small_cap = v.small_cap;
      ordered = rw next (
          Ordered-append 0 im.ordinal (im.ordinal + 1) im.pipeline.queue.queue e v.ordered
            (omega arith) (omega arith) eo);
      current =
          All-append (IsCurrent im.pipeline.consent_generation) im.pipeline.queue.queue (e ∷ [])
            v.current (eg, tt);
      consented = λ _. o.consented;
      session_consented = λ _. o.consented;
    }

-- Every admission, successful or not, keeps the invariant, until 2^64 events were admitted.
pub admit_locked-IsValid :
    (env : Environment) (name : Bytes) (properties : Properties) (im : Impl)
    → im.ordinal + 1 < u64_mod
    → IsValid im
    → IsValid (admit_locked env name properties im).1
unfolding queued_event
admit_locked-IsValid env name properties im w v =
    let after = (admit_locked env name properties im).1 in
    let e = queued_event env name properties (assigned im.session) im in
    elim (admit_locked_cases env name properties im (let s = v.small_cap in omega arith)) [
      | inl (o, _, a) ↦
          subst IsValidView (sym (Admits-view env name properties im after a))
            (admitted_view-IsValid e im (omega arith) refl o w v)
      | inr (_, _, s) ↦ SameState-IsValid im after s v
    ]
