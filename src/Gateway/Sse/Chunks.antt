-- ===== src/Gateway/Sse/Chunks.antt =====
-- The parser does not see how the stream is cut into chunks.
use d_api.Base.{
  ℕ, suc, zero, ◌≤◌, ◌≡◌, refl, sym, subst, ap, ◌∙◌, inl, inr, Bool, true, false, List, [], ◌∷◌,
  ◌++◌, arith, length, Bool-cases, Option-cases,
}
use d_api.Gateway.Usage.{Protocol}
use d_api.Gateway.Sse.{
  External, Parser, new, append, end_line, split_line, feed_rounds, feed, skips,
}
use d_api.Gateway.Sse.Steps.{
  IsBounded, past_cr, step, feed_bytes, step-IsBounded, split_line-length, feed_bytes-append,
  feed_bytes-line,
}

abbrev pub concat : List (List ℕ) → List ℕ
concat [] = []
concat (chunk ∷ rest) = chunk ++ concat rest

module _ (x : External) where
  feed_bytes-skip :
      (c : ℕ) (cs : List ℕ) (p : Parser)
      → skips (c ∷ cs) p ≡ true
      → feed_bytes x (c ∷ cs) p ≡ feed_bytes x cs (past_cr p)
  unfolding feed_bytes step
  feed_bytes-skip c cs p h = ap (feed_bytes x cs) (ground arith)

  -- A carriage return before has no effect on a byte that is not the newline of its pair.
  feed_bytes-past_cr :
      (c : ℕ) (cs : List ℕ) (p : Parser)
      → skips (c ∷ cs) p ≡ false
      → feed_bytes x (c ∷ cs) p ≡ feed_bytes x (c ∷ cs) (past_cr p)
  unfolding feed_bytes step
  feed_bytes-past_cr c cs p h = ap (feed_bytes x cs) (ground arith)

  end_line-IsBounded : (n : ℕ) (p : Parser) → IsBounded (end_line x n p)
  unfolding end_line
  end_line-IsBounded n p = ground arith

  -- With enough fuel for its bytes the loop of `Feed` is the parser that takes one byte at a time.
  feed_rounds-feed_bytes :
      (fuel : ℕ) (content : List ℕ) (p : Parser)
      → length content ≤ fuel
      → IsBounded p
      → feed_rounds x fuel content p ≡ feed_bytes x content p
  unfolding feed_rounds
  feed_rounds-feed_bytes zero [] p h b = unfold feed_bytes in refl
  feed_rounds-feed_bytes zero (c ∷ cs) p h b = absurd (omega arith)
  feed_rounds-feed_bytes (suc fuel) [] p h b = unfold feed_bytes in refl
  feed_rounds-feed_bytes (suc fuel) (c ∷ cs) p h b = elim (Bool-cases (skips (c ∷ cs) p)) [
    | inl e ↦ rw e (
        feed_rounds-feed_bytes fuel cs (past_cr p) (omega arith) b ∙ sym (feed_bytes-skip c cs p e))
    | inr e ↦ elim (Option-cases (split_line (c ∷ cs))) [
      | inl no_line ↦
          rw (e, no_line)
            (sym (
              feed_bytes-past_cr c cs p e
              ∙ feed_bytes-append x (c ∷ cs) (past_cr p) b refl no_line))
      | inr ((before, n, after), found) ↦
          rw (e, found)
            (feed_rounds-feed_bytes fuel after (end_line x n (append before (past_cr p)))
                (omega (arith, split_line-length (c ∷ cs) before after n found))
                (end_line-IsBounded n (append before (past_cr p)))
              ∙ sym (
                  feed_bytes-past_cr c cs p e
                  ∙ feed_bytes-line x (c ∷ cs) before after n (past_cr p) b refl found))
    ]
  ]

  pub feed-feed_bytes :
      (content : List ℕ) (p : Parser) → IsBounded p → feed x content p ≡ feed_bytes x content p
  unfolding feed
  feed-feed_bytes content p b = feed_rounds-feed_bytes (length content) content p (omega arith) b

  pub feed_bytes-IsBounded :
      (cs : List ℕ) (p : Parser) → IsBounded p → IsBounded (feed_bytes x cs p)
  unfolding feed_bytes
  feed_bytes-IsBounded [] p b = b
  feed_bytes-IsBounded (c ∷ cs) p b = feed_bytes-IsBounded cs (step x c p) (step-IsBounded x c p b)

  feed_bytes-concat :
      (xs ys : List ℕ) (p : Parser)
      → feed_bytes x (xs ++ ys) p ≡ feed_bytes x ys (feed_bytes x xs p)
  unfolding feed_bytes
  feed_bytes-concat [] ys p = refl
  feed_bytes-concat (c ∷ xs) ys p = feed_bytes-concat xs ys (step x c p)

  -- The parser fed with each chunk in turn.
  unfoldable pub feed_all : List (List ℕ) → Parser → Parser
  feed_all [] p = p
  feed_all (chunk ∷ rest) p = feed_all rest (feed x chunk p)

  pub feed_all-bytes :
      (chunks : List (List ℕ)) (p : Parser)
      → IsBounded p
      → feed_all chunks p ≡ feed_bytes x (concat chunks) p
  unfolding feed_all
  feed_all-bytes [] p b = unfold feed_bytes in refl
  feed_all-bytes (chunk ∷ rest) p b =
      ap (feed_all rest) (feed-feed_bytes chunk p b)
      ∙ feed_all-bytes rest (feed_bytes x chunk p) (feed_bytes-IsBounded chunk p b)
      ∙ sym (feed_bytes-concat chunk (concat rest) p)

  -- However a stream is cut into chunks, also within a line or between the two bytes of a line end,
  -- the parser ends in the state that it reaches on the whole stream at once, whatever the decoding
  -- of an event does.
  pub feed_all-concat :
      (chunks : List (List ℕ)) (protocol : Protocol) (complete : Bool)
      → feed_all chunks (new protocol complete) ≡ feed x (concat chunks) (new protocol complete)
  unfolding new
  feed_all-concat chunks protocol complete =
      feed_all-bytes chunks (new protocol complete) (omega arith)
      ∙ sym (feed-feed_bytes (concat chunks) (new protocol complete) (omega arith))

  -- The line that the parser keeps back never grows past the limit of 1 MiB.
  pub feed_all-IsBounded :
      (chunks : List (List ℕ)) (protocol : Protocol) (complete : Bool)
      → IsBounded (feed_all chunks (new protocol complete))
  unfolding new
  feed_all-IsBounded chunks protocol complete =
      subst IsBounded (sym (feed_all-bytes chunks (new protocol complete) (omega arith)))
        (feed_bytes-IsBounded (concat chunks) (new protocol complete) (omega arith))
