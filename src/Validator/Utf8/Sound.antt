-- ===== src/Validator/Utf8/Sound.antt =====
-- What is_valid_utf8 of src/event_validator.cpp accepts, round by round.
use player_trace_sdk.Base.Bits.{
  and-e0, and-f0, and-f8, and-c0, and-1f, and-0f, and-07, and-3f, or-shift,
}
use player_trace_sdk.Base.{
  ℕ, suc, ◌+◌, ◌*◌, ◌/◌, ◌%◌, ◌^◌, ◌<◌, ◌≡◌, refl, ◌⊎◌, true, List, [], ◌∷◌, ◌++◌, Option-cases,
  subst, inl, inr, none, some, arith, All, Bool-cases, ap, ◌∙◌, zero, ltb,
}
use player_trace_sdk.Validator.Utf8.{multibyte, lead, join, continuation, accepted, valid_from}
use player_trace_sdk.Validator.Utf8.Scalar.{IsScalar, encode, encode_all}

abbrev pub IsByte : ℕ → Type 0
IsByte c = c < 256

pub join_lem : (cp cc : ℕ) → cp < 67108864 → cc < 256 → join cp cc ≡ cp * 64 + cc % 64
unfolding join
join_lem cp cc h b =
    let e : cp * 64 % 2 ^ 32 ≡ cp * 64 = omega arith in
    rw (e, and-3f cc b) (or-shift cp (cc % 64) (omega arith))

continuation-suc :
    (k cp : ℕ) (p : List ℕ) (r : ℕ × List ℕ)
    → cp < 67108864
    → All IsByte p
    → continuation (suc k) cp p ≡ some r
    → (c : ℕ) × (q : List ℕ) × (p ≡ c ∷ q)
      × (c / 64 ≡ 2)
      × (c < 256)
      × All IsByte q
      × (continuation k (cp * 64 + c % 64) q ≡ some r)
unfolding continuation
continuation-suc k cp [] r h b e = ground arith
continuation-suc k cp (c ∷ q) r h b e = (
  c,
  q,
  refl,
  ground (arith, and-c0 c b.0),
  b.0,
  b.1,
  ground (arith, and-c0 c b.0, join_lem cp c h b.0),
)

pub lead-cases :
    (c : ℕ)
    → c < 256
    → (lead c ≡ none)
      ⊎ ((c / 32 ≡ 6) × (lead c ≡ some (1, c % 32)))
      ⊎ ((c / 16 ≡ 14) × (lead c ≡ some (2, c % 16)))
      ⊎ ((c / 8 ≡ 30) × (lead c ≡ some (3, c % 8)))
unfolding lead
lead-cases c h =
    ground (arith, and-e0 c h, and-f0 c h, and-f8 c h, and-1f c h, and-0f c h, and-07 c h)

-- What one round has read, and that it is the encoding of a scalar value.
abbrev Reads : ℕ → List ℕ → List ℕ → Type 0
Reads c p rest = (cp : ℕ) × IsScalar cp × (c ∷ p ≡ encode cp ++ rest) × All IsByte rest

accepted-two :
    (c a cp : ℕ) (rest : List ℕ)
    → c / 32 ≡ 6
    → a / 64 ≡ 2
    → c % 32 * 64 + a % 64 ≡ cp
    → accepted 1 cp ≡ true
    → IsScalar cp × (c ∷ a ∷ rest ≡ encode cp ++ rest)
unfolding accepted
accepted-two c a cp rest hc ha hcp ok = ground arith

accepted-three :
    (c a b cp : ℕ) (rest : List ℕ)
    → c / 16 ≡ 14
    → a / 64 ≡ 2
    → b / 64 ≡ 2
    → (c % 16 * 64 + a % 64) * 64 + b % 64 ≡ cp
    → accepted 2 cp ≡ true
    → IsScalar cp × (c ∷ a ∷ b ∷ rest ≡ encode cp ++ rest)
unfolding accepted
accepted-three c a b cp rest hc ha hb hcp ok = ground arith

accepted-four :
    (c a b d cp : ℕ) (rest : List ℕ)
    → c / 8 ≡ 30
    → a / 64 ≡ 2
    → b / 64 ≡ 2
    → d / 64 ≡ 2
    → ((c % 8 * 64 + a % 64) * 64 + b % 64) * 64 + d % 64 ≡ cp
    → accepted 3 cp ≡ true
    → IsScalar cp × (c ∷ a ∷ b ∷ d ∷ rest ≡ encode cp ++ rest)
unfolding accepted
accepted-four c a b d cp rest hc ha hb hd hcp ok = ground arith

multibyte-eq-some :
    (c : ℕ) (p rest : List ℕ)
    → multibyte c p ≡ some rest
    → (extra : ℕ) × (bits : ℕ) × (cp : ℕ) × (lead c ≡ some (extra, bits))
      × (continuation extra bits p ≡ some (cp, rest))
      × (accepted extra cp ≡ true)
unfolding multibyte
multibyte-eq-some c p rest h = elim (Option-cases (lead c)) [
  | inl e ↦ absurd (ground arith)
  | inr ((extra, bits), e) ↦ elim (Option-cases (continuation extra bits p)) [
    | inl f ↦ absurd (ground arith)
    | inr ((cp, q), f) ↦ (extra, bits, cp, e, ground arith, ground arith)
  ]
]

two-Reads :
    (c cp : ℕ) (p rest : List ℕ)
    → All IsByte p
    → c / 32 ≡ 6
    → continuation 1 (c % 32) p ≡ some (cp, rest)
    → accepted 1 cp ≡ true
    → Reads c p rest
unfolding continuation
two-Reads c cp p rest b hc e ok =
    let (a, q, ep, ha, _, bq, e1) = continuation-suc 0 (c % 32) p (cp, rest) (omega arith) b e in
    let found = accepted-two c a cp rest hc ha (ground arith) ok in
    (cp, found.0, ground (arith, found.1), subst (All IsByte) (ground arith) bq)

three-Reads :
    (c cp : ℕ) (p rest : List ℕ)
    → All IsByte p
    → c / 16 ≡ 14
    → continuation 2 (c % 16) p ≡ some (cp, rest)
    → accepted 2 cp ≡ true
    → Reads c p rest
unfolding continuation
three-Reads c cp p rest b hc e ok =
    let (a, q, ep, ha, _, bq, e1) = continuation-suc 1 (c % 16) p (cp, rest) (omega arith) b e in
    let (d, r, eq, hd, _, br, e2) =
      continuation-suc 0 (c % 16 * 64 + a % 64) q (cp, rest) (omega arith) bq e1 in
    let found = accepted-three c a d cp rest hc ha hd (ground arith) ok in
    (cp, found.0, ground (arith, found.1), subst (All IsByte) (ground arith) br)

four-Reads :
    (c cp : ℕ) (p rest : List ℕ)
    → All IsByte p
    → c / 8 ≡ 30
    → continuation 3 (c % 8) p ≡ some (cp, rest)
    → accepted 3 cp ≡ true
    → Reads c p rest
unfolding continuation
four-Reads c cp p rest b hc e ok =
    let (a, q, ep, ha, _, bq, e1) = continuation-suc 2 (c % 8) p (cp, rest) (omega arith) b e in
    let (d, r, eq, hd, _, br, e2) =
      continuation-suc 1 (c % 8 * 64 + a % 64) q (cp, rest) (omega arith) bq e1 in
    let (g, s, er, hg, _, bs, e3) =
      continuation-suc 0 ((c % 8 * 64 + a % 64) * 64 + d % 64) r (cp, rest) (omega arith) br e2 in
    let found = accepted-four c a d g cp rest hc ha hd hg (ground arith) ok in
    (cp, found.0, ground (arith, found.1), subst (All IsByte) (ground arith) bs)

multibyte-Reads :
    (c : ℕ) (p rest : List ℕ) → c < 256 → All IsByte p → multibyte c p ≡ some rest → Reads c p rest
multibyte-Reads c p rest hc b h =
    let (extra, bits, cp, e, f, g) = multibyte-eq-some c p rest h in
    elim (lead-cases c hc) [
      | inl bad ↦ absurd (ground arith)
      | inr (inl (k, e')) ↦ two-Reads c cp p rest b k (ground arith) (ground arith)
      | inr (inr (inl (k, e'))) ↦ three-Reads c cp p rest b k (ground arith) (ground arith)
      | inr (inr (inr (k, e'))) ↦ four-Reads c cp p rest b k (ground arith) (ground arith)
    ]

-- The scalar values that a text spells.
abbrev pub Spells : List ℕ → Type 0
Spells text = (cps : List ℕ) × All IsScalar cps × (text ≡ encode_all cps)

Spells-cons :
    (c cp : ℕ) (p rest : List ℕ)
    → IsScalar cp
    → c ∷ p ≡ encode cp ++ rest
    → Spells rest
    → Spells (c ∷ p)
Spells-cons c cp p rest s e (cps, all, f) = (cp ∷ cps, (s, all), e ∙ ap (◌++◌ (encode cp)) f)

pub valid_from-Spells :
    (fuel : ℕ) (text : List ℕ) → All IsByte text → valid_from fuel text ≡ true → Spells text
unfolding valid_from
valid_from-Spells zero text b h = absurd (ground arith)
valid_from-Spells (suc fuel) [] b h = ([], tt, refl)
valid_from-Spells (suc fuel) (c ∷ p) b h = elim (Bool-cases (ltb c 0x80)) [
  | inl ascii ↦
      Spells-cons c c p p (ground arith) (rw ascii) (valid_from-Spells fuel p b.1 (ground arith))
  | inr more ↦ elim (Option-cases (multibyte c p)) [
    | inl e ↦ absurd (ground arith)
    | inr (rest, e) ↦
        let (cp, s, f, br) = multibyte-Reads c p rest b.0 b.1 e in
        Spells-cons c cp p rest s f (valid_from-Spells fuel rest br (ground arith))
  ]
]
