-- ===== src/Store/Action.antt =====
-- Actions that may fail: how the early returns of src/sqlite_store.cpp and src/file_sink.cpp are read.
use player_trace_sdk.Base.{
  ◌≡◌, inl, inr, Bool-cases, true, Bool, Option, none, some, if◌then◌else◌, false,
}

-- `none` is a return with StorageError.
abbrev pub Action : Type 0 → Type 0 → Type 0
Action D A = D → Option A × D

infixl 5 ◌>>=◌ ◌>>◌
abbrev pub ◌>>=◌ : {D A B : Type 0} → Action D A → (A → Action D B) → Action D B
◌>>=◌ m f d = let (r, d') = m d in elim r [ none ↦ (none, d') | some a ↦ f a d' ]

abbrev pub ◌>>◌ : {D A B : Type 0} → Action D A → Action D B → Action D B
m >> k = m >>= λ _. k

abbrev pub return : {D A : Type 0} → A → Action D A
return a d = (some a, d)

abbrev pub fail : {D A : Type 0} → Action D A
fail d = (none, d)

-- A call that has succeeded or not.
abbrev pub try : {D : Type 0} → (D → Bool × D) → Action D (Unit {0})
try f d = let (good, d') = f d in (if good then some tt else none, d')

-- A call whose answer is ignored.
abbrev pub run : {D : Type 0} → (D → Bool × D) → Action D (Unit {0})
run f d = (some tt, (f d).1)

abbrev pub read : {D A : Type 0} → (D → A) → Action D A
read f d = (some (f d), d)

-- What holds after a failure, and after a success.
abbrev pub Ends : {D A : Type 0} → (D → Type 0) → (A → D → Type 0) → Option A → D → Type 0
Ends bad post none d = bad d
Ends bad post (some a) d = post a d

-- From `pre`, a success leads to `post` and a failure to `bad`.
pub record Ensures {D A : Type 0} (bad pre : D → Type 0) (m : Action D A) (post : A → D → Type 0)
    : Type 0 where
  pub after : (d : D) → pre d → Ends bad post (m d).0 (m d).1

after_bind :
    {D A B : Type 0} (f : A → Action D B) (bad : D → Type 0) (mid : A → D → Type 0)
    (post : B → D → Type 0) (r : Option A) (d : D)
    → Ends bad mid r d
    → ((a : A) → Ensures bad (mid a) (f a) post)
    → Ends bad post (((λ (_ : D). (r, d)) >>= f) d).0 (((λ (_ : D). (r, d)) >>= f) d).1
after_bind f bad mid post none d h k = h
after_bind f bad mid post (some a) d h k = (k a).after d h

ends_weaken :
    {D A : Type 0} {bad bad' : D → Type 0} (post post' : A → D → Type 0) (r : Option A) (d : D)
    → ((d : D) → bad d → bad' d)
    → ((a : A) (d : D) → post a d → post' a d)
    → Ends bad post r d
    → Ends bad' post' r d
ends_weaken post post' none d f g h = f d h
ends_weaken post post' (some a) d f g h = g a d h

pub Ensures-weaken :
    {D A : Type 0} {m : Action D A} {bad bad' pre : D → Type 0} {post post' : A → D → Type 0}
    → ((d : D) → bad d → bad' d)
    → ((a : A) (d : D) → post a d → post' a d)
    → Ensures bad pre m post
    → Ensures bad' pre m post'
Ensures-weaken {m = m} {post = post} {post' = post'} f g h = record {
  after = λ d p. ends_weaken post post' (m d).0 (m d).1 f g (h.after d p);
}

pub Ensures->>= :
    {D A B : Type 0} (m : Action D A) (f : A → Action D B) {bad pre : D → Type 0}
    (mid : A → D → Type 0) {post : B → D → Type 0}
    → Ensures bad pre m mid
    → ((a : A) → Ensures bad (mid a) (f a) post)
    → Ensures bad pre (m >>= f) post
Ensures->>= m f {bad} mid {post} h k = record {
  after = λ d p. after_bind f bad mid post (m d).0 (m d).1 (h.after d p) k;
}

pub Ensures-try :
    {D : Type 0} (f : D → Bool × D) {bad pre post : D → Type 0}
    → ((d : D) → pre d → (f d).0 ≡ true → post (f d).1)
    → ((d : D) → pre d → (f d).0 ≡ false → bad (f d).1)
    → Ensures bad pre (try f) (λ _. post)
Ensures-try f h k = record {
  after = λ d p. elim (Bool-cases (f d).0) [
    | inl good ↦ rw good (h d p good)
    | inr fails ↦ rw fails (k d p fails)
  ];
}

-- Where nothing is said of a failure.
abbrev pub After : {D A : Type 0} → (A → D → Type 0) → Option A → D → Type 0
After post r d = Ends (λ _. Unit) post r d

abbrev pub Leads : {D A : Type 0} → (D → Type 0) → Action D A → (A → D → Type 0) → Type 0
Leads pre m post = Ensures (λ _. Unit) pre m post

pub Leads->>= :
    {D A B : Type 0} (m : Action D A) (f : A → Action D B) {pre : D → Type 0} (mid : A → D → Type 0)
    {post : B → D → Type 0}
    → Leads pre m mid
    → ((a : A) → Leads (mid a) (f a) post)
    → Leads pre (m >>= f) post
Leads->>= m f mid h k = Ensures->>= m f mid h k

pub Leads-try :
    {D : Type 0} (f : D → Bool × D) {pre post : D → Type 0}
    → ((d : D) → pre d → (f d).0 ≡ true → post (f d).1)
    → Leads pre (try f) (λ _. post)
Leads-try f h = Ensures-try f h (λ d p fails. tt)
