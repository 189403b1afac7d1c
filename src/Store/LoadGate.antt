-- ===== src/Store/LoadGate.antt =====
-- internal/store/load_gate.go: the gate that lets one caller at a time load the value of a key. A
-- caller that finds its key busy waits for the channel of the one at work and then tries again.
pub mod Tests
use d_api.Base.{
  ℕ, suc, ◌+◌, ◌≤◌, ◌≡◌, ◌≢◌, ◌↔◌, refl, sym, ap, subst, ◌∙◌, Bool, true, false, not, ◌&&◌, ◌||◌,
  Option, none, some, List, [], ◌∷◌, ◌++◌, arith, Key, ◌==◌, if◌then◌else◌, nat_beq, nat_key,
  Option-cases, inl, inr,
}
use d_api.Base.Maps.{Map, lookup, insert, delete, lookup-insert, lookup-delete}

-- The keys that are loaded, with the channels that the callers at work will close; `next` is a new
-- channel and `closed` are those that were closed.
pub record LoadGate (K : Type 0) : Type 0 where
  pub active : Map K ℕ
  pub next : ℕ
  pub closed : List ℕ

-- What `acquire` does in one round of its loop; what it grants is the function that closes a channel.
pub data Round : Type 0 where
  cancelled : Round
  granted waits : ℕ → Round

abbrev pub is_granted : Round → Bool
is_granted (Round.granted done) = true
is_granted Round.cancelled = false
is_granted (Round.waits done) = false

abbrev pub is_active : Option ℕ → ℕ
is_active none = 0
is_active (some done) = 1

abbrev pub is_closed : ℕ → List ℕ → Bool
is_closed done [] = false
is_closed done (c ∷ cs) = nat_beq c done || is_closed done cs

module _ {K : Type 0} ⦃keys : Key K⦄ where
  -- `ended` says that the context of the caller has ended.
  unfoldable pub acquire : Bool → K → LoadGate K → LoadGate K × Round
  acquire ended key g = if ended then (g, Round.cancelled) else (elim (lookup key g.active) [
    | none ↦
        (record g { active = insert key g.next g.active; next = g.next + 1 }, Round.granted g.next)
    | some done ↦ (g, Round.waits done)
  ])

  -- The function that `acquire` returns, with the key and the channel that it captured.
  unfoldable pub release : K → ℕ → LoadGate K → LoadGate K
  release key done g = record g { active = delete key g.active; closed = done ∷ g.closed }

  -- How many of the callers at work load a key.
  abbrev pub loading : K → List (K × ℕ) → ℕ
  loading key [] = 0
  loading key ((k, done) ∷ ks) = let rest = loading key ks in if k == key then suc rest else rest

  -- Whether one of the callers has this key and this channel.
  abbrev pub holds : K → ℕ → List (K × ℕ) → Bool
  holds key done [] = false
  holds key done ((k, c) ∷ ks) = (k == key && nat_beq c done) || holds key done ks

  -- The callers at work and those that wait, after a round.
  abbrev pub working : K → Round → List (K × ℕ) → List (K × ℕ)
  working key (Round.granted done) ks = (key, done) ∷ ks
  working key Round.cancelled ks = ks
  working key (Round.waits done) ks = ks

  abbrev pub waiting : K → Round → List (K × ℕ) → List (K × ℕ)
  waiting key (Round.granted done) ws = ws
  waiting key Round.cancelled ws = ws
  waiting key (Round.waits done) ws = (key, done) ∷ ws

  -- The callers at work, those that wait, and the gate. A caller stops waiting when its channel is
  -- closed or its context ends, which may be at any time, and may then come again.
  pub data Reach : List (K × ℕ) → List (K × ℕ) → LoadGate K → Type 0 where
    starts : Reach [] [] (record { active = []; next = 0; closed = [] })
    acquires :
        (ended : Bool) (key : K) (ks ws : List (K × ℕ)) (g : LoadGate K)
        → Reach ks ws g
        → Reach
            (working key (acquire ended key g).1 ks)
            (waiting key (acquire ended key g).1 ws)
            (acquire ended key g).0
    stops :
        (w : K × ℕ) (ks ws ws' : List (K × ℕ)) (g : LoadGate K)
        → Reach ks (ws ++ (w ∷ ws')) g
        → Reach ks (ws ++ ws') g
    releases :
        (key : K) (done : ℕ) (ks ks' ws : List (K × ℕ)) (g : LoadGate K)
        → Reach (ks ++ ((key, done) ∷ ks')) ws g
        → Reach (ks ++ ks') ws (release key done g)

  loading-split :
      (key k : K) (done : ℕ) (ks ks' : List (K × ℕ))
      → loading key (ks ++ ((k, done) ∷ ks'))
        ≡ (if k == key then suc (loading key (ks ++ ks')) else loading key (ks ++ ks'))
  loading-split key k done [] ks' = refl
  loading-split key k done ((j, c) ∷ ks) ks' = ground (arith, loading-split key k done ks ks')

  holds-split :
      (key k : K) (d done : ℕ) (ks ks' : List (K × ℕ))
      → holds key d (ks ++ ((k, done) ∷ ks'))
        ≡ ((k == key && nat_beq done d) || holds key d (ks ++ ks'))
  holds-split key k d done [] ks' = refl
  holds-split key k d done ((j, c) ∷ ks) ks' = ground (arith, holds-split key k d done ks ks')

  -- What is known of a key: one caller at work if it is active, which has the channel that is kept,
  -- and each caller that waits for it has a channel that is closed or that a caller at work has.
  record Known (ks ws : List (K × ℕ)) (g : LoadGate K) (k : K) : Type 0 where
    count : loading k ks ≡ is_active (lookup k g.active)
    held : (d : ℕ) → lookup k g.active ≡ some d → holds k d ks ≡ true
    woken : (d : ℕ) → holds k d ws ≡ true → is_closed d g.closed ≡ false → holds k d ks ≡ true

  acquired :
      (ended : Bool) (key k : K) (ks ws : List (K × ℕ)) (g : LoadGate K)
      → Known ks ws g k
      → Known
          (working key (acquire ended key g).1 ks)
          (waiting key (acquire ended key g).1 ws)
          (acquire ended key g).0
          k
  unfolding acquire
  acquired true key k ks ws g h = h
  acquired false key k ks ws g h = elim (Option-cases (lookup key g.active)) [
    | inl gone ↦
        let same = keys.same_iff key k in
        let found = lookup-insert key k g.next g.active in
        rw (gone, acquire)
          (record {
            count = ground (arith, gone, h.count, same, found);
            held = λ d e. ground (arith, gone, h.held d, same, found, e, nat_key.same_iff g.next d);
            woken = λ d w c. ground (arith, h.woken d w c);
          })
    | inr (done, found) ↦
        rw (found, acquire)
          (record {
            count = h.count;
            held = h.held;
            woken = λ d w c. ground (
              arith,
              h.woken d,
              h.held d,
              found,
              keys.same_iff key k,
              nat_key.same_iff done d,
              w,
              c,
            );
          })
  ]

  Reach-Known : (ks ws : List (K × ℕ)) (g : LoadGate K) (k : K) → Reach ks ws g → Known ks ws g k
  unfolding release lookup
  Reach-Known _ _ _ k Reach.starts = record {
    count = refl;
    held = λ d e. absurd (cc);
    woken = λ d w c. absurd (cc);
  }
  Reach-Known _ _ _ k (Reach.acquires ended key ks ws g r) =
      acquired ended key k ks ws g (Reach-Known ks ws g k r)
  Reach-Known _ _ _ k (Reach.stops (key, done) ks ws ws' g r) =
      let h = Reach-Known ks (ws ++ ((key, done) ∷ ws')) g k r in
      record {
        count = h.count;
        held = h.held;
        woken = λ d w c. ground (arith, h.woken d, holds-split k key d done ws ws', w, c);
      }
  Reach-Known _ _ _ k (Reach.releases key done ks ks' ws g r) =
      let h = Reach-Known (ks ++ ((key, done) ∷ ks')) ws g k r in
      let same = keys.same_iff key k in
      record {
        count =
            ground
              (arith, h.count, loading-split k key done ks ks', same, lookup-delete key k g.active);
        held = λ d e. ground (
          arith,
          h.held d,
          holds-split k key d done ks ks',
          same,
          lookup-delete key k g.active,
          e,
        );
        woken = λ d w c. ground (arith, h.woken d w, holds-split k key d done ks ks', c);
      }

  -- However callers come, wait, give up and finish, at most one of them loads a key at a time; a
  -- caller that comes is let through at once exactly if none of them loads its key; and each caller
  -- that waits has a channel that is closed already or that a caller still at work on its key has, and
  -- will close when it finishes, so that none is left waiting by one that finished.
  pub Reach-loading :
      (ks ws : List (K × ℕ)) (g : LoadGate K) (key : K)
      → Reach ks ws g
      → (loading key ks ≤ 1)
        × ((is_granted (acquire false key g).1 ≡ true) ↔ (loading key ks ≡ 0))
        × ((done : ℕ)
            → holds key done ws ≡ true
            → is_closed done g.closed ≡ false
            → holds key done ks ≡ true)
  unfolding acquire
  Reach-loading ks ws g key r =
      let known = Reach-Known ks ws g key r in
      elim (Option-cases (lookup key g.active)) [
        | inl gone ↦
            rw (gone, acquire)
              (
                ground (arith, gone, known.count),
                ((λ _. ground (arith, gone, known.count)), λ _. refl),
                known.woken,
              )
        | inr (done, found) ↦
            rw (found, acquire)
              (
                ground (arith, found, known.count),
                ((λ h. absurd cc), λ h. absurd (ground (arith, found, known.count, h))),
                known.woken,
              )
      ]
