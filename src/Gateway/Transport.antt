-- ===== src/Gateway/Transport.antt =====
-- internal/gateway/transport.go: the cache of HTTP clients, the fields of a request's body, and the
-- body with another model. `Json` stands for the decoder and the encoder of the standard library.
pub mod Payload
pub mod Clients
pub mod Oldest
pub mod Tests
use d_api.Base.{
  ℕ, ◌+◌, ◌*◌, String, Bool, true, false, not, ◌&&◌, ◌||◌, Option, none, some, List, [], ◌∷◌, ltb,
  leb, nat_beq, length, ◌==◌, string_key, nat_key, Key, if◌then◌else◌, ◌≡◌, ◌↔◌, arith,
}
use d_api.Base.Maps.{Map, lookup, insert, delete}

pub record TransportKey : Type 0 where
  pub connect : ℕ
  pub first_byte : ℕ
  pub idle : ℕ

abbrev pub same_transport_key : TransportKey → TransportKey → Bool
same_transport_key a b =
    a.connect == b.connect && (a.first_byte == b.first_byte && a.idle == b.idle)

pub same_transport_key_iff : (a b : TransportKey) → (same_transport_key a b ≡ true) ↔ (a ≡ b)
same_transport_key_iff a b = ground (
  arith,
  nat_key.same_iff a.connect b.connect,
  nat_key.same_iff a.first_byte b.first_byte,
  nat_key.same_iff a.idle b.idle,
)

instance abbrev pub transport_key : Key TransportKey
transport_key = record { same = same_transport_key; same_iff = same_transport_key_iff }

-- A client is known by a number.
pub record TransportEntry : Type 0 where
  pub client : ℕ
  pub used : ℕ

pub record Transports : Type 0 where
  pub entries : Map TransportKey TransportEntry
  pub made : ℕ

abbrev pub max_cached_transports : ℕ
max_cached_transports = 32

abbrev pub second : ℕ
second = 1000000000

abbrev pub or_default : ℕ → ℕ → ℕ
or_default n d = if nat_beq n 0 then d else n

abbrev pub key_of : ℕ → ℕ → ℕ → TransportKey
key_of connect first_byte idle = record {
  connect = or_default connect (5 * second);
  first_byte = or_default first_byte (180 * second);
  idle = or_default idle (90 * second);
}

-- The loop that looks for the least recently used client.
unfoldable pub oldest : Map TransportKey TransportEntry → TransportKey × ℕ → TransportKey × ℕ
oldest [] best = best
oldest ((key, e) ∷ entries) best =
    oldest entries (if nat_beq best.1 0 || ltb e.used best.1 then (key, e.used) else best)

abbrev pub zero_key : TransportKey
zero_key = record { connect = 0; first_byte = 0; idle = 0 }

abbrev pub evict : Map TransportKey TransportEntry → Map TransportKey TransportEntry
evict entries =
    if leb max_cached_transports (length entries)
    then delete (oldest entries (zero_key, 0)).0 entries
    else entries

-- `client` of an upstream with these times.
unfoldable pub client : TransportKey → ℕ → Transports → Transports × ℕ
client key now t = elim (lookup key t.entries) [
  | some e ↦ (record t { entries = insert key (record e { used = now }) t.entries }, e.client)
  | none ↦ (
    record {
      entries = insert key (record { client = t.made; used = now }) (evict t.entries);
      made = t.made + 1;
    },
    t.made,
  )
]

-- What `Decoder` finds in a body: whether an object begins there, its fields, whether it ends well,
-- and whether nothing follows. A field that does not decode is `broken`.
pub data Field (V : Type 0) : Type 0 where
  field : String → V → Field V
  broken : Field V

pub record Json (Body V : Type 0) : Type 0 where
  pub is_object : Body → Bool
  pub fields : Body → List (Field V)
  pub ends : Body → Bool
  pub is_all : Body → Bool
  pub read_string : V → Option String
  pub read_bool : V → Option Bool
  pub equal_fold : String → String → Bool
  pub replace : Body → String → Option Body

pub record RequestPayload : Type 0 where
  pub model : String
  pub stream : Bool

pub record Seen : Type 0 where
  pub payload : RequestPayload
  pub seen_model : Bool
  pub seen_stream : Bool

-- `requestBodies`.
pub record RequestBodies (Body : Type 0) : Type 0 where
  pub body : Body
  pub model : String
  pub rewritten : Map String Body

module _ {Body V : Type 0} (x : Json Body V) where
  abbrev pub with_model : Option String → Seen → Option Seen
  with_model none s = none
  with_model (some m) s =
      some (record s { payload = record s.payload { model = m }; seen_model = true })

  abbrev pub with_stream : Option Bool → Seen → Option Seen
  with_stream none s = none
  with_stream (some b) s =
      some (record s { payload = record s.payload { stream = b }; seen_stream = true })

  -- One round of the loop of `parseRequestPayload`.
  unfoldable pub take_field : String → V → Seen → Option Seen
  take_field key v s =
      if x.equal_fold key "model"
      then (if not (key == "model") || s.seen_model then none else with_model (x.read_string v) s)
      else (if x.equal_fold key "stream"
          then (if not (key == "stream") || s.seen_stream
              then none
              else with_stream (x.read_bool v) s)
          else some s)

  unfoldable pub take_fields : List (Field V) → Seen → Option Seen
  take_fields [] s = some s
  take_fields (Field.broken ∷ fs) s = none
  take_fields (Field.field key v ∷ fs) s = elim (take_field key v s) [
    | none ↦ none
    | some s' ↦ take_fields fs s'
  ]

  abbrev pub start : Seen
  start = record {
    payload = record { model = ""; stream = false };
    seen_model = false;
    seen_stream = false;
  }

  abbrev pub payload_of : Option Seen → Option RequestPayload
  payload_of none = none
  payload_of (some s) = some s.payload

  unfoldable pub parse_request_payload : Body → Option RequestPayload
  parse_request_payload body =
      if not (x.is_object body)
      then none
      else (let seen = take_fields (x.fields body) start in
          if not (x.ends body) || not (x.is_all body) then none else payload_of seen)

  -- `forModel`.
  unfoldable pub for_model : String → RequestBodies Body → RequestBodies Body × Option Body
  for_model model b =
      if model == b.model then (b, some b.body) else (elim (lookup model b.rewritten) [
        | some body ↦ (b, some body)
        | none ↦ elim (x.replace b.body model) [
          | none ↦ (b, none)
          | some body ↦ (record b { rewritten = insert model body b.rewritten }, some body)
        ]
      ])
