-- ===== src/Gateway/Recorder/Bisect.antt =====
-- internal/gateway/recorder.go, `flush` over a database that refuses some entries: a batch is split
-- until each refused entry stands alone.
use d_api.Base.{
  append_assoc, append_nil, ℕ, suc, zero, ◌+◌, ◌/◌, ◌≤◌, ◌≡◌, refl, sym, ap, subst, ◌∙◌, Bool, true,
  false, not, ◌||◌, List, [], ◌∷◌, ◌++◌, length, take, drop, keep, ltb, if◌then◌else◌, arith,
  length-take, length-drop, length-append, take-append-drop, inl, inr, Bool-cases,
}
use d_api.Gateway.Recorder.{Answer, Repository, Books, Verdict, attempts, flush_batch, flush}

unfoldable pub any : {A : Type 0} → (A → Bool) → List A → Bool
any p [] = false
any p (x ∷ xs) = p x || any p xs

keep-append :
    {A : Type 0} (p : A → Bool) (xs ys : List A) → keep p (xs ++ ys) ≡ keep p xs ++ keep p ys
keep-append p [] ys = refl
keep-append p (x ∷ xs) ys = ground (arith, keep-append p xs ys)

keep-halves :
    {A : Type 0} (p : A → Bool) (n : ℕ) (xs : List A)
    → keep p (take n xs) ++ keep p (drop n xs) ≡ keep p xs
keep-halves p n xs =
    sym (keep-append p (take n xs) (drop n xs)) ∙ ap (keep p) (take-append-drop n xs)

keep-none :
    {A : Type 0} (p : A → Bool) (xs : List A)
    → any p xs ≡ false
    → (keep (λ x. not (p x)) xs ≡ xs) × (keep p xs ≡ [])
unfolding any
keep-none p [] h = (refl, refl)
keep-none p (x ∷ xs) h = ground (arith, h, keep-none p xs)

keep-alone :
    {A : Type 0} (p : A → Bool) (x : A) (xs : List A)
    → any p (x ∷ xs) ≡ true
    → ltb 1 (length (x ∷ xs)) ≡ false
    → (keep (λ y. not (p y)) (x ∷ xs) ≡ []) × (length (keep p (x ∷ xs)) ≡ 1) × (length xs ≡ 0)
unfolding any
keep-alone p x [] h short = ground (arith, h)
keep-alone p x (y ∷ ys) h short = absurd (ground (arith, short))

-- The database refuses a batch for its data exactly if it holds an entry of a certain kind, accepts
-- it otherwise, and the context does not end.
pub record Refuses {S Entry : Type 0} (repo : Repository S Entry) (bad : Entry → Bool)
    : Type 0 where
  pub batches : repo.batches ≡ true
  pub answer :
      (xs : List Entry) (s : S)
      → (repo.record_requests xs s).1 ≡ (if any bad xs then Answer.data_error else Answer.written)
  pub runs : (s : S) → repo.cancelled s ≡ false

module _ {S Entry : Type 0} (repo : Repository S Entry) (bad : Entry → Bool)
    (r : Refuses repo bad) where
  attempts-verdict :
      (delays : List ℕ) (entries : List Entry) (s : S)
      → (attempts repo delays entries s).1 ≡ (
          if any bad entries
          then (if ltb 1 (length entries) then Verdict.split else Verdict.given_up)
          else Verdict.done)
  unfolding attempts
  attempts-verdict [] entries s =
      ground (arith, r.answer entries s, r.runs (repo.record_requests entries s).0)
  attempts-verdict (delay ∷ delays) entries s =
      ground (arith, r.answer entries s, r.runs (repo.record_requests entries s).0)

  split-step :
      (delays : List ℕ) (fuel : ℕ) (x : Entry) (xs : List Entry) (b : Books S Entry)
      → (attempts repo delays (x ∷ xs) b.outside).1 ≡ Verdict.split
      → let middle = length (x ∷ xs) / 2 in
        let start : Books S Entry = record b {
          outside = (attempts repo delays (x ∷ xs) b.outside).0;
        } in
        (flush_batch repo delays (suc fuel) (x ∷ xs) b).0
        ≡ (flush_batch repo delays fuel
            (drop middle (x ∷ xs))
            (flush_batch repo delays fuel (take middle (x ∷ xs)) start).0).0
  unfolding flush_batch
  split-step delays fuel x xs b e = ground (arith, e)

  -- What `flush_batch-Keeps` says of the books before and after.
  abbrev pub Keeps : List Entry → Books S Entry → Books S Entry → Type 0
  Keeps entries b after =
      (after.stored ≡ b.stored ++ keep (λ x. not (bad x)) entries)
      × (after.dropped ≡ b.dropped + length (keep bad entries))

  Keeps-halves :
      (n : ℕ) (entries : List Entry) (b c d : Books S Entry)
      → Keeps (take n entries) b c
      → Keeps (drop n entries) c d
      → Keeps entries b d
  Keeps-halves n entries b c d left right = (
    right.0
        ∙ ap (λ z. z ++ keep (λ y. not (bad y)) (drop n entries)) left.0
        ∙ append_assoc b.stored (keep (λ y. not (bad y)) (take n entries))
            (keep (λ y. not (bad y)) (drop n entries))
        ∙ ap (λ z. b.stored ++ z) (keep-halves (λ y. not (bad y)) n entries),
    omega (
      arith,
      left.1,
      right.1,
      ap length (keep-halves bad n entries),
      length-append (keep bad (take n entries)) (keep bad (drop n entries)),
    ),
  )

  flush_batch-Keeps :
      (delays : List ℕ) (fuel : ℕ) (entries : List Entry) (b : Books S Entry)
      → length entries ≤ fuel
      → Keeps entries b (flush_batch repo delays fuel entries b).0
  unfolding flush_batch
  flush_batch-Keeps delays fuel [] b h = (sym (append_nil b.stored), omega arith)
  flush_batch-Keeps delays zero (x ∷ xs) b h = absurd (omega arith)
  flush_batch-Keeps delays (suc fuel) (x ∷ xs) b h =
      let verdict = attempts-verdict delays (x ∷ xs) b.outside in
      elim (Bool-cases (any bad (x ∷ xs))) [
        | inr fine ↦ ground (arith, verdict, fine, keep-none bad (x ∷ xs) fine)
        | inl some_bad ↦ elim (Bool-cases (ltb 1 (length (x ∷ xs)))) [
          | inr alone ↦ ground (
            arith,
            verdict,
            some_bad,
            alone,
            keep-alone bad x xs some_bad alone,
            append_nil b.stored,
          )
          | inl big ↦
              let middle : ℕ = length (x ∷ xs) / 2 in
              let start : Books S Entry = record b {
                outside = (attempts repo delays (x ∷ xs) b.outside).0;
              } in
              let left =
                flush_batch-Keeps delays fuel (take middle (x ∷ xs)) start
                  (ground (arith, big, length-take middle (x ∷ xs))) in
              let right =
                flush_batch-Keeps delays fuel (drop middle (x ∷ xs))
                  (flush_batch repo delays fuel (take middle (x ∷ xs)) start).0
                  (ground (arith, big, length-drop middle (x ∷ xs))) in
              let c : Books S Entry =
                (flush_batch repo delays fuel (take middle (x ∷ xs)) start).0 in
              let d : Books S Entry = (flush_batch repo delays fuel (drop middle (x ∷ xs)) c).0 in
              subst (Keeps (x ∷ xs) b)
                (sym (split-step delays fuel x xs b (ground (arith, verdict, some_bad, big))))
                (Keeps-halves middle (x ∷ xs) b c d left right)
        ]
      ]

  -- If the database refuses a batch for its data exactly when it holds a bad entry, and otherwise
  -- accepts it, a flush stores every good entry, in order, and drops the bad ones only.
  pub flush-keeps :
      (delays : List ℕ) (entries : List Entry) (b : Books S Entry)
      → let after = (flush repo delays entries b).0 in
        (after.stored ≡ b.stored ++ keep (λ x. not (bad x)) entries)
        × (after.dropped ≡ b.dropped + length (keep bad entries))
  unfolding flush
  flush-keeps delays entries b =
      ground (arith, r.batches, flush_batch-Keeps delays (length entries) entries b (omega arith))
