-- ===== src/Gateway/Transport/Clients.antt =====
-- internal/gateway/transport.go, `client`: which cached client is used, which one makes room.
use d_api.Base.{
  ℕ, ◌+◌, ◌≤◌, ◌<◌, ◌≡◌, ◌⊎◌, refl, Option, none, some, [], ◌∷◌, arith, leb, length, ◌==◌,
  if◌then◌else◌, Option-cases, Bool-cases, inl, inr,
}
use d_api.Base.Maps.{
  lookup, insert, delete, lookup-insert, lookup-delete, length-insert, length-delete,
}
use d_api.Base.Maps.Distinct.{IsDistinct, insert-IsDistinct, delete-IsDistinct, length-insert_bound}
use d_api.Gateway.Transport.{
  TransportKey, transport_key, TransportEntry, Transports, oldest, zero_key, evict, client,
}
use d_api.Gateway.Transport.Oldest.{Entries, IsUsed, IsOldest, oldest-IsOldest}

length-delete_lt :
    (k : TransportKey) (e : TransportEntry) (m : Entries)
    → lookup k m ≡ some e
    → length (delete k m) < length m
unfolding delete lookup
length-delete_lt k e [] h = absurd (cc)
length-delete_lt k e ((j, w) ∷ m) h = ground (arith, h, length-delete k m, length-delete_lt k e m)

-- What makes room: nothing where there is room, and else the oldest client alone.
abbrev pub IsEvicted : Entries → (TransportKey → Option TransportEntry) → Type 0
IsEvicted m kept =
    ((length m < 32) × ((j : TransportKey) → kept j ≡ lookup j m))
    ⊎ ((length m ≡ 32)
        × ((v : TransportKey) × IsOldest v m
            × ((j : TransportKey) → kept j ≡ (if v == j then none else lookup j m))))

evict-IsEvicted :
    (m : Entries)
    → length m ≤ 32
    → IsDistinct m
    → IsUsed m
    → IsEvicted m (λ j. lookup j (evict m)) × (length (evict m) < 32)
evict-IsEvicted [] h d u = (inl (omega arith, λ j. refl), omega arith)
evict-IsEvicted (b ∷ m) h d u = elim (Bool-cases (leb 32 (length (b ∷ m)))) [
  | inr room ↦ rw (room) (inl (ground (arith, room), λ j. refl), ground (arith, room))
  | inl full ↦
      let v = (oldest (b ∷ m) (zero_key, 0)).0 in
      let least = oldest-IsOldest b m d u in
      rw (full) (
        inr (ground (arith, full, h), (v, least, λ j. lookup-delete v j (b ∷ m))),
        omega (arith, h, length-delete_lt v least.0 (b ∷ m) least.1),
      )
]

-- The cache holds at most 32 clients, each with its own key and a time of use.
pub record IsCache (t : Transports) : Type 0 where
  pub fits : length t.entries ≤ 32
  pub distinct : IsDistinct t.entries
  pub used : IsUsed t.entries

insert-IsUsed :
    (key : TransportKey) (e : TransportEntry) (m : Entries)
    → 0 < e.used
    → IsUsed m
    → IsUsed (insert key e m)
unfolding insert
insert-IsUsed key e [] h u = (h, tt)
insert-IsUsed key e ((j, w) ∷ m) h u = ground (arith, h, u, insert-IsUsed key e m h u.1)

delete-IsUsed : (key : TransportKey) (m : Entries) → IsUsed m → IsUsed (delete key m)
unfolding delete
delete-IsUsed key [] u = u
delete-IsUsed key ((j, w) ∷ m) u = ground (arith, u, delete-IsUsed key m u.1)

evict-IsDistinct : (m : Entries) → IsDistinct m → IsDistinct (evict m)
evict-IsDistinct m d = ground (arith, d, delete-IsDistinct (oldest m (zero_key, 0)).0 m d)

evict-IsUsed : (m : Entries) → IsUsed m → IsUsed (evict m)
evict-IsUsed m u = ground (arith, u, delete-IsUsed (oldest m (zero_key, 0)).0 m u)

-- A client that is cached for the times is used again, and nothing else changes.
abbrev pub Reused : TransportKey → ℕ → Transports → Transports × ℕ → Type 0
Reused key now t done =
    (e : TransportEntry) × (lookup key t.entries ≡ some e)
    × (done.1 ≡ e.client)
    × (done.0.made ≡ t.made)
    × ((j : TransportKey)
        → lookup j done.0.entries ≡ (
            if key == j
            then some (record { client = e.client; used = now })
            else lookup j t.entries))

-- One that is not is made, and kept beside those that have not made room for it.
abbrev pub Made : TransportKey → ℕ → Transports → Transports × ℕ → Type 0
Made key now t done =
    (lookup key t.entries ≡ none)
    × (done.1 ≡ t.made)
    × (done.0.made ≡ t.made + 1)
    × ((kept : TransportKey → Option TransportEntry) × IsEvicted t.entries kept
        × ((j : TransportKey)
            → lookup j done.0.entries
              ≡ (if key == j then some (record { client = t.made; used = now }) else kept j)))

-- The cache stays one of at most 32 clients, each used at some time. A client that is cached for the
-- times that are asked for is used again, no other is made and no entry leaves. If none is cached
-- then a new one is made and kept; where there was room no other entry changes, and where there were
-- 32 exactly one leaves, whose client was used no later than any other.
pub client_lem :
    (key : TransportKey) (now : ℕ) (t : Transports)
    → 0 < now
    → IsCache t
    → IsCache (client key now t).0
      × (Reused key now t (client key now t) ⊎ Made key now t (client key now t))
unfolding client
client_lem key now t late c = elim (Option-cases (lookup key t.entries)) [
  | inl gone ↦
      let fresh : TransportEntry = record { client = t.made; used = now } in
      let (evicted, room) = evict-IsEvicted t.entries c.fits c.distinct c.used in
      rw (gone, client)
        (
          record {
            fits = omega (arith, room, length-insert key fresh (evict t.entries));
            distinct =
                insert-IsDistinct key fresh (evict t.entries)
                  (evict-IsDistinct t.entries c.distinct);
            used = insert-IsUsed key fresh (evict t.entries) late (evict-IsUsed t.entries c.used);
          },
          inr (
            refl,
            refl,
            refl,
            (
              (λ j. lookup j (evict t.entries)),
              evicted,
              λ j. lookup-insert key j fresh (evict t.entries),
            ),
          ),
        )
  | inr (e, found) ↦
      let again : TransportEntry = record e { used = now } in
      rw (found, client)
        (
          record {
            fits = omega (arith, c.fits, length-insert_bound key again e t.entries found);
            distinct = insert-IsDistinct key again t.entries c.distinct;
            used = insert-IsUsed key again t.entries late c.used;
          },
          inl (e, refl, refl, refl, λ j. lookup-insert key j again t.entries),
        )
]
