-- ===== src/Gateway/Recorder/Flush.antt =====
-- internal/gateway/recorder.go, `flush`: every entry is stored or counted as dropped, and the entries
-- that the database refuses do not take others with them.
use d_api.Base.{
  ℕ, suc, zero, ◌+◌, ◌/◌, ◌≤◌, ◌<◌, ◌≡◌, List, [], ◌∷◌, ◌++◌, length, take, drop, if◌then◌else◌,
  arith, length-take, length-drop, length-append, inl, inr, ◌⊎◌,
}
use d_api.Gateway.Recorder.{
  Repository, Books, Verdict, attempts, flush_batch, flush_each, flush, is_written,
}

module _ {S Entry : Type 0} (repo : Repository S Entry) where
  -- A batch splits only if it has two entries or more.
  attempts-splits :
      (delays : List ℕ) (entries : List Entry) (s : S)
      → (attempts repo delays entries s).1 ≡ Verdict.split
      → 1 < length entries
  unfolding attempts
  attempts-splits [] entries s h = ground arith
  attempts-splits (delay ∷ delays) entries s h =
      ground
        (arith, attempts-splits delays entries (repo.wait delay (repo.record_requests entries s).0))

  Verdict-cases :
      (v : Verdict) → (v ≡ Verdict.done) ⊎ ((v ≡ Verdict.split) ⊎ (v ≡ Verdict.given_up))
  Verdict-cases v = ground arith

  flush_batch-total :
      (delays : List ℕ) (fuel : ℕ) (entries : List Entry) (b : Books S Entry)
      → length entries ≤ fuel
      → let after = (flush_batch repo delays fuel entries b).0 in
        length after.stored + after.dropped ≡ length b.stored + b.dropped + length entries
  unfolding flush_batch
  flush_batch-total delays fuel [] b h = ground arith
  flush_batch-total delays zero (x ∷ xs) b h = absurd (omega arith)
  flush_batch-total delays (suc fuel) (x ∷ xs) b h =
      elim (Verdict-cases (attempts repo delays (x ∷ xs) b.outside).1) [
        | inl e ↦ ground (arith, e, length-append b.stored (x ∷ xs))
        | inr (inl e) ↦
            let big : 1 < length (x ∷ xs) = attempts-splits delays (x ∷ xs) b.outside e in
            let middle : ℕ = length (x ∷ xs) / 2 in
            let start : Books S Entry = record b {
              outside = (attempts repo delays (x ∷ xs) b.outside).0;
            } in
            let left =
              flush_batch-total delays fuel (take middle (x ∷ xs)) start
                (omega (arith, length-take middle (x ∷ xs))) in
            let right =
              flush_batch-total delays fuel (drop middle (x ∷ xs))
                (flush_batch repo delays fuel (take middle (x ∷ xs)) start).0
                (omega (arith, length-drop middle (x ∷ xs))) in
            ground (arith, e, left, right, length-take middle (x ∷ xs), length-drop middle (x ∷ xs))
        | inr (inr e) ↦ ground (arith, e)
      ]

  flush_each-total :
      (entries : List Entry) (b : Books S Entry)
      → let after = (flush_each repo entries b).0 in
        length after.stored + after.dropped ≡ length b.stored + b.dropped + length entries
  unfolding flush_each
  flush_each-total [] b = ground arith
  flush_each-total (x ∷ xs) b = ground (
    arith,
    length-append b.stored (x ∷ []),
    flush_each-total xs (record {
      outside = (repo.record_request x b.outside).0;
      stored =
          if is_written (repo.record_request x b.outside).1 then b.stored ++ x ∷ [] else b.stored;
      dropped = if is_written (repo.record_request x b.outside).1 then b.dropped else b.dropped + 1;
    }),
  )

  -- Whatever the repository answers and whenever the context ends, a flush accounts for each entry:
  -- the entries stored and the entries counted as dropped grow together by the entries given.
  pub flush-total :
      (delays : List ℕ) (entries : List Entry) (b : Books S Entry)
      → let after = (flush repo delays entries b).0 in
        length after.stored + after.dropped ≡ length b.stored + b.dropped + length entries
  unfolding flush
  flush-total delays entries b = ground (
    arith,
    flush_batch-total delays (length entries) entries b (omega arith),
    flush_each-total entries b,
  )
