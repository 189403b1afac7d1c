-- ===== src/Gateway/Sse/Steps.antt =====
-- `Feed` against the parser that takes one byte at a time.
use mathlib.Core.List.{append_assoc, append-nil}
use d_api.Base.{
  ℕ, ◌≤◌, ◌<◌, ◌≡◌, sym, ap, ◌∙◌, ◌⊎◌, inl, inr, true, false, ◌&&◌, none, some, List, [], ◌∷◌,
  arith, nat_beq, if◌then◌else◌, length, length-append, Bool-cases, Option-cases,
}
use d_api.Gateway.Sse.{
  External, Parser, max_sse_event_bytes, newline, append, end_line, is_newline, split_line,
}

-- The pending line is within the limit.
abbrev pub IsBounded : Parser → Type 0
IsBounded p = length p.pending ≤ max_sse_event_bytes

abbrev pub past_cr : Parser → Parser
past_cr p = record p { after_cr = false }

pub append-IsBounded : (cs : List ℕ) (p : Parser) → IsBounded p → IsBounded (append cs p)
unfolding append
append-IsBounded cs p h = ground (arith, length-append p.pending cs)

append-cons :
    (c : ℕ) (cs : List ℕ) (p : Parser)
    → IsBounded p
    → append (c ∷ cs) p ≡ append cs (append (c ∷ []) p)
unfolding append
append-cons c cs p h =
    ground (arith, length-append p.pending (c ∷ []), append_assoc p.pending (c ∷ []) cs)

append-empty : (p : Parser) → IsBounded p → append [] p ≡ p
unfolding append
append-empty p h = ground (arith, append-nil p.pending)

append-past_cr : (cs : List ℕ) (p : Parser) → append cs (past_cr p) ≡ past_cr (append cs p)
unfolding append
append-past_cr cs p = ground arith

split_line-none :
    (c : ℕ) (cs : List ℕ)
    → split_line (c ∷ cs) ≡ none
    → (is_newline c ≡ false) × (split_line cs ≡ none)
unfolding split_line
split_line-none c cs h = ground arith

-- The first newline is the first byte, or it is found in the rest.
split_line-some :
    (c : ℕ) (cs before after : List ℕ) (n : ℕ)
    → split_line (c ∷ cs) ≡ some (before, n, after)
    → ((is_newline c ≡ true) × (before ≡ []) × (n ≡ c) × (after ≡ cs))
      ⊎ ((is_newline c ≡ false)
          × ((rest : List ℕ) × (before ≡ c ∷ rest) × (split_line cs ≡ some (rest, n, after))))
unfolding split_line
split_line-some c cs before after n h = elim (Bool-cases (is_newline c)) [
  | inl e ↦ inl (e, ground arith, ground arith, ground arith)
  | inr e ↦ elim (Option-cases (split_line cs)) [
    | inl missing ↦ absurd (ground arith)
    | inr ((b, m, a), found) ↦ inr (e, (b, ground arith, ground arith))
  ]
]

pub split_line-length :
    (cs before after : List ℕ) (n : ℕ)
    → split_line cs ≡ some (before, n, after)
    → length after < length cs
split_line-length [] before after n h = absurd (unfold split_line in cc h)
split_line-length (c ∷ cs) before after n h = elim (split_line-some c cs before after n h) [
  | inl (_, _, _, e) ↦ rw e (omega arith)
  | inr (_, (rest, _, found)) ↦ omega (arith, split_line-length cs rest after n found)
]

module _ (x : External) where
  unfoldable pub step : ℕ → Parser → Parser
  step c p =
      if p.after_cr && nat_beq c newline
      then past_cr p
      else (if is_newline c then end_line x c (past_cr p) else append (c ∷ []) (past_cr p))

  unfoldable pub feed_bytes : List ℕ → Parser → Parser
  feed_bytes [] p = p
  feed_bytes (c ∷ cs) p = feed_bytes cs (step c p)

  pub step-IsBounded : (c : ℕ) (p : Parser) → IsBounded p → IsBounded (step c p)
  unfolding step end_line
  step-IsBounded c p h = ground (arith, append-IsBounded (c ∷ []) (past_cr p) h)

  step_byte :
      (c : ℕ) (p : Parser)
      → p.after_cr ≡ false
      → is_newline c ≡ false
      → step c p ≡ append (c ∷ []) p
  unfolding step
  step_byte c p a e = ground arith

  step_line :
      (c : ℕ) (p : Parser)
      → IsBounded p
      → p.after_cr ≡ false
      → is_newline c ≡ true
      → step c p ≡ end_line x c (append [] p)
  unfolding step
  step_line c p h a e = ground (arith, append-empty p h)

  pub append-after_cr : (cs : List ℕ) (p : Parser) → (append cs p).after_cr ≡ p.after_cr
  unfolding append
  append-after_cr cs p = ground arith

  -- Without a newline the bytes are only kept.
  pub feed_bytes-append :
      (cs : List ℕ) (p : Parser)
      → IsBounded p
      → p.after_cr ≡ false
      → split_line cs ≡ none
      → feed_bytes cs p ≡ append cs p
  unfolding feed_bytes
  feed_bytes-append [] p h a s = sym (append-empty p h)
  feed_bytes-append (c ∷ cs) p h a s =
      let (plain, more) = split_line-none c cs s in
      ap (feed_bytes cs) (step_byte c p a plain)
      ∙ feed_bytes-append cs (append (c ∷ []) p) (append-IsBounded (c ∷ []) p h)
          (append-after_cr (c ∷ []) p ∙ a) more
      ∙ sym (append-cons c cs p h)

  -- Up to the first newline they are kept, and then the line ends.
  pub feed_bytes-line :
      (cs before after : List ℕ) (n : ℕ) (p : Parser)
      → IsBounded p
      → p.after_cr ≡ false
      → split_line cs ≡ some (before, n, after)
      → feed_bytes cs p ≡ feed_bytes after (end_line x n (append before p))
  unfolding feed_bytes
  feed_bytes-line [] before after n p h a s = absurd (unfold split_line in cc s)
  feed_bytes-line (c ∷ cs) before after n p h a s = elim (split_line-some c cs before after n s) [
    | inl (e, b, m, r) ↦ rw (b, m, r) (ap (feed_bytes cs) (step_line c p h a e))
    | inr (e, (rest, b, found)) ↦ rw b (
        ap (feed_bytes cs) (step_byte c p a e)
        ∙ feed_bytes-line cs rest after n (append (c ∷ []) p) (append-IsBounded (c ∷ []) p h)
            (append-after_cr (c ∷ []) p ∙ a) found
        ∙ ap (λ q. feed_bytes after (end_line x n q)) (sym (append-cons c rest p h)))
  ]
