-- ===== src/Redact/Line.antt =====
-- The shape of what safeDetail returns.
use podwatcher.Prelude.{
  ℕ, zero, suc, ◌≤◌, ◌<◌, ◌≡◌, refl, List, [], ◌∷◌, ◌++◌, length, take, All, ◌⊎◌, inl, inr, arith,
  ◌&&◌, ◌||◌, Bool-cases, leb, ltb, length-append, length-take, ltb→lt, ltb→le,
}
use podwatcher.Redact.{
  Text, codes, same, hex, short_escape, quote_char, quote_chars, quote, cut, redact, safe_detail,
}

-- printable ASCII
abbrev pub IsPrintable : Text → Type 0
IsPrintable s = All (λ c. (32 ≤ c) × (c ≤ 126)) s

IsPrintable-append : (s t : Text) → IsPrintable s → IsPrintable t → IsPrintable (s ++ t)
IsPrintable-append [] t h k = k
IsPrintable-append (c ∷ s) t h k = (h.0, IsPrintable-append s t h.1 k)

IsPrintable-take : (n : ℕ) (s : Text) → IsPrintable s → IsPrintable (take n s)
unfolding take
IsPrintable-take zero s h = tt
IsPrintable-take (suc n) [] h = tt
IsPrintable-take (suc n) (c ∷ s) h = (h.0, IsPrintable-take n s h.1)

hex-IsPrintable : (width c : ℕ) → IsPrintable (hex width c)
unfolding hex
hex-IsPrintable zero c = tt
hex-IsPrintable (suc width) c = ((ground arith, ground arith), hex-IsPrintable width c)

short_escape-IsPrintable : (c : ℕ) → (32 ≤ short_escape c) × (short_escape c ≤ 126)
short_escape-IsPrintable c = ground arith

quote_char-IsPrintable : (c : ℕ) → IsPrintable (quote_char c)
unfolding quote_char
quote_char-IsPrintable c = elim (Bool-cases (same c b'"' || same c b'\\')) [
  | inl h ↦ rw h (omega arith, (ground arith, tt))
  | inr h ↦ rw h (elim (Bool-cases (leb 32 c && leb c 126)) [
    | inl h ↦ rw h (ground arith, tt)
    | inr h ↦ rw h (elim (Bool-cases (leb 7 c && leb c 13)) [
      | inl h ↦ rw h (omega arith, (short_escape-IsPrintable c, tt))
      | inr h ↦ rw h (elim (Bool-cases (ltb c 32 || same c 127)) [
        | inl h ↦ rw h (omega arith, (omega arith, hex-IsPrintable 2 c))
        | inr h ↦ rw h (elim (Bool-cases (ltb c 65536)) [
          | inl h ↦ rw h (omega arith, (omega arith, hex-IsPrintable 4 c))
          | inr h ↦ rw h ((omega arith, (omega arith, hex-IsPrintable 8 c)))
        ])
      ])
    ])
  ])
]

quote_chars-IsPrintable : (s : Text) → IsPrintable (quote_chars s)
unfolding quote_chars
quote_chars-IsPrintable [] = (omega arith, tt)
quote_chars-IsPrintable (c ∷ s) =
    IsPrintable-append (quote_char c) (quote_chars s) (quote_char-IsPrintable c)
      (quote_chars-IsPrintable s)

cut-IsPrintable : (s : Text) → IsPrintable s → IsPrintable (cut s) × (length (cut s) ≤ 2063)
unfolding cut
cut-IsPrintable s h = elim (Bool-cases (ltb 2048 (length s))) [
  | inl long ↦
      let dots : IsPrintable (codes "... [truncated]") = ground arith in
      rw long (
        IsPrintable-append (take 2048 s) (codes "... [truncated]") (IsPrintable-take 2048 s h) dots,
        omega (arith, length-append (take 2048 s) (codes "... [truncated]"), length-take 2048 s),
      )
  | inr short ↦ let bounded = ltb→le 2048 (length s) short in rw short (h, omega (arith, bounded))
]

-- Whatever the two regular expressions and the secrets make of a detail, the safe detail is one line of
-- at most 2063 printable ASCII characters, and a detail of which the redacted text, quoted, has at most
-- 2048 is quoted whole.
pub safe_detail-IsPrintable :
    (hide_url_credentials hide_auth_credentials : Text → Text) (secrets : List Text) (detail : Text)
    → let safe = safe_detail hide_url_credentials hide_auth_credentials secrets detail in
      let quoted = quote (redact secrets (hide_auth_credentials (hide_url_credentials detail))) in
      IsPrintable safe × (length safe ≤ 2063) × ((safe ≡ quoted) ⊎ (2048 < length quoted))
unfolding safe_detail cut quote
safe_detail-IsPrintable hide_url_credentials hide_auth_credentials secrets detail =
    let redacted = redact secrets (hide_auth_credentials (hide_url_credentials detail)) in
    let (printable, bounded) =
      cut-IsPrintable (quote redacted) (omega arith, quote_chars-IsPrintable redacted) in
    (
      printable,
      bounded,
      elim (Bool-cases (ltb 2048 (length (quote redacted)))) [
        | inl long ↦ inr (ltb→lt 2048 (length (quote redacted)) long)
        | inr short ↦ inl (simp short refl)
      ],
    )
