-- ===== src/Matching/Text/Normal.antt =====
-- Normalized labels.
use Prim.Native.Char.{code}
use radar_ia.Prelude.{
  ◌≡◌, ◌⊎◌, refl, ap, ◌∙◌, ℕ, String, true, false, ◌&&◌, arith, Bool-cases, inl, inr, is_space,
}
use radar_ia.Matching.Runtime.{Runtime}
use radar_ia.Matching.Text.{
  empty, space, is_mark, is_token_char, strip_marks, on_space, join_separators, join_spaces,
  trim_start, trim_end, trim, normalize_token,
}

-- words of the characters a-z, 0-9, `.`, `+` and `-`, with single spaces
abbrev pub Words : String → Type 0
Words String.[] = Unit
Words (String.◌∷◌ c s) =
    ((is_token_char (code c) ≡ true) × Words s) ⊎ ((c ≡ space) × (on_space s ≡ false) × Words s)

token-not_space : (c : ℕ) → is_token_char c ≡ true → is_space c ≡ false
unfolding is_space
token-not_space c h = ground arith

token-not_mark : (c : ℕ) → is_token_char c ≡ true → is_mark c ≡ false
token-not_mark c h = ground arith

join_separators-Words : (s : String) → Words (join_separators s)
join_separators-Words String.[] = tt
join_separators-Words (String.◌∷◌ c s) = elim (Bool-cases (is_token_char (code c))) [
  | inl token ↦ rw token (inl (token, join_separators-Words s))
  | inr other ↦ elim (Bool-cases (on_space (join_separators s))) [
    | inl spaced ↦ rw other (rw spaced (join_separators-Words s))
    | inr apart ↦ rw other (rw apart (inr (refl, apart, join_separators-Words s)))
  ]
]

-- the text begins with no space
trim_start-Words : (s : String) → Words s → Words (trim_start s) × (on_space (trim_start s) ≡ false)
unfolding is_space
trim_start-Words String.[] w = (tt, refl)
trim_start-Words (String.◌∷◌ c s) (inl h) =
    rw (token-not_space (code c) h.0) (inl h, ground (arith, h.0))
trim_start-Words (String.◌∷◌ c s) (inr h) = rw h.0 (trim_start-Words s h.2)

on_space-trim_end : (s : String) → on_space s ≡ false → on_space (trim_end s) ≡ false
on_space-trim_end String.[] h = refl
on_space-trim_end (String.◌∷◌ c s) h = elim (Bool-cases (is_space (code c) && empty (trim_end s))) [
  | inl at_end ↦ rw at_end refl
  | inr inside ↦ rw inside h
]

trim_end-Words : (s : String) → Words s → Words (trim_end s)
unfolding is_space
trim_end-Words String.[] w = tt
trim_end-Words (String.◌∷◌ c s) (inl h) =
    rw (token-not_space (code c) h.0) (inl (h.0, trim_end-Words s h.1))
trim_end-Words (String.◌∷◌ c s) (inr h) = elim (Bool-cases (empty (trim_end s))) [
  | inl at_end ↦ rw h.0 (rw at_end tt)
  | inr inside ↦ rw h.0 (rw inside (inr (refl, on_space-trim_end s h.1, trim_end-Words s h.2)))
]

trim_end-again : (s : String) → trim_end (trim_end s) ≡ trim_end s
trim_end-again String.[] = refl
trim_end-again (String.◌∷◌ c s) = ground (arith, trim_end-again s)

trim_start-unmoved : (s : String) → Words s → on_space s ≡ false → trim_start s ≡ s
unfolding is_space
trim_start-unmoved String.[] w h = refl
trim_start-unmoved (String.◌∷◌ c s) (inl k) h = rw (token-not_space (code c) k.0) refl
trim_start-unmoved (String.◌∷◌ c s) (inr k) h =
    let bad : on_space (String.◌∷◌ space s) ≡ false = rw k.0 at h in absurd (ground arith)

strip_marks-unmoved : (s : String) → Words s → strip_marks s ≡ s
strip_marks-unmoved String.[] w = refl
strip_marks-unmoved (String.◌∷◌ c s) (inl h) =
    rw (token-not_mark (code c) h.0) (ap (λ r. String.◌∷◌ c r) (strip_marks-unmoved s h.1))
strip_marks-unmoved (String.◌∷◌ c s) (inr h) =
    rw h.0 (ap (λ r. String.◌∷◌ space r) (strip_marks-unmoved s h.2))

join_separators-unmoved : (s : String) → Words s → join_separators s ≡ s
join_separators-unmoved String.[] w = refl
join_separators-unmoved (String.◌∷◌ c s) (inl h) =
    rw h.0 (ap (λ r. String.◌∷◌ c r) (join_separators-unmoved s h.1))
join_separators-unmoved (String.◌∷◌ c s) (inr h) =
    rw h.0 (rw (join_separators-unmoved s h.2) (rw h.1 refl))

join_spaces-unmoved : (s : String) → Words s → join_spaces s ≡ s
unfolding is_space
join_spaces-unmoved String.[] w = refl
join_spaces-unmoved (String.◌∷◌ c s) (inl h) =
    rw (token-not_space (code c) h.0) (ap (λ r. String.◌∷◌ c r) (join_spaces-unmoved s h.1))
join_spaces-unmoved (String.◌∷◌ c s) (inr h) = rw h.0 (rw (join_spaces-unmoved s h.2) (rw h.1 refl))

-- what is left of any text between the runtime's tables and the last step
trimmed : String → String
trimmed s = trim_end (trim_start (join_separators s))

trimmed-Words : (s : String) → Words (trimmed s) × (on_space (trimmed s) ≡ false)
unfolding trimmed
trimmed-Words s =
    let start = trim_start-Words (join_separators s) (join_separators-Words s) in
    (
      trim_end-Words (trim_start (join_separators s)) start.0,
      on_space-trim_end (trim_start (join_separators s)) start.1,
    )

trimmed-again : (s : String) → trimmed (trimmed s) ≡ trimmed s
unfolding trimmed
trimmed-again s =
    let w = trimmed-Words s in
    rw (join_separators-unmoved (trimmed s) w.0) (
      rw (trim_start-unmoved (trimmed s) w.0 w.1) (trim_end-again (trim_start (join_separators s))))

-- Where the runtime's tables leave texts of such words alone, a normalized label is words of the
-- characters a-z, 0-9, `.`, `+` and `-` with single spaces, and normalizing it again changes nothing.
pub normalize_token-again :
    (rt : Runtime)
    → ((s : String) → Words s → rt.nfkd s ≡ s)
    → ((s : String) → Words s → rt.lower s ≡ s)
    → (s : String)
    → Words (normalize_token rt s)
      × (normalize_token rt (normalize_token rt s) ≡ normalize_token rt s)
unfolding normalize_token trimmed
normalize_token-again rt nfkd lower s = rw settled (w, again)
  where
    body : String
    body = rt.lower (strip_marks (rt.nfkd s))

    w : Words (trimmed body)
    w = (trimmed-Words body).0

    settled : join_spaces (trimmed body) ≡ trimmed body
    settled = join_spaces-unmoved (trimmed body) w

    again :
        join_spaces (trim (join_separators (rt.lower (strip_marks (rt.nfkd (trimmed body))))))
        ≡ trimmed body
    again = rw (nfkd (trimmed body) w) (
        rw (strip_marks-unmoved (trimmed body) w)
          (rw (lower (trimmed body) w) (ap (λ r. join_spaces r) (trimmed-again body) ∙ settled)))
