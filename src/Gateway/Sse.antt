-- ===== src/Gateway/Sse.antt =====
-- internal/gateway/usage.go, `sseUsageParser`: the parser that watches a relayed event stream for
-- token counts and for the end that the protocol promises. Bytes are numbers. What the standard
-- library does on the bytes of one event (`bytes.TrimSpace` and the JSON decoding) is the parameter
-- `External`; nothing is assumed of it.
pub mod Steps
pub mod Chunks
pub mod Errors
use d_api.Base.{
  ℕ, suc, zero, ◌+◌, String, Bool, true, false, not, ◌&&◌, ◌||◌, Option, none, some, List, [], ◌∷◌,
  ◌++◌, leb, ltb, nat_beq, if◌then◌else◌, length,
}
use Prim.Native.Char.{code}
use d_api.Gateway.Usage.{
  Protocol, responses, messages, chat, unknown, Usage, UsageFields, no_usage, merge,
  parse_usage_object_for_protocol, normalize_usage_for_protocol,
}

abbrev pub max_sse_event_bytes : ℕ
max_sse_event_bytes = 1048576

abbrev pub newline : ℕ
newline = 10

abbrev pub carriage_return : ℕ
carriage_return = 13

abbrev pub codes : String → List ℕ
codes String.[] = []
codes (String.◌∷◌ c s) = code c ∷ codes s

abbrev pub bytes_eq : List ℕ → List ℕ → Bool
bytes_eq [] [] = true
bytes_eq (x ∷ xs) (y ∷ ys) = nat_beq x y && bytes_eq xs ys
bytes_eq _ _ = false

-- One decoded event: the fields that `dispatch` reads, an absent usage as `none`, and an undecodable
-- one as `some none`.
pub record Event : Type 0 where
  pub kind : List ℕ
  pub has_error : Bool
  pub usage : Option (Option UsageFields)
  pub response_usage : Option (Option UsageFields)
  pub message_usage : Option (Option UsageFields)
  pub delta_is_text : Bool
  pub delta_is_text_delta : Bool
  pub choice_has_text : Bool

pub record External : Type 0 where
  pub trim_space : List ℕ → List ℕ
  pub decode : List ℕ → Option Event

pub record Parser : Type 0 where
  pub pending : List ℕ
  pub event_data : List ℕ
  pub event_discard : Bool
  pub after_cr : Bool
  pub started : Bool
  pub discard : Bool
  pub usage : Usage
  pub protocol : Protocol
  pub text_seen : Bool
  pub failed : Bool
  pub completed : Bool
  pub saw_event : Bool
  pub require_completion : Bool
  pub event_type : List ℕ

unfoldable pub new : Protocol → Bool → Parser
new protocol require_completion = record {
  pending = [];
  event_data = [];
  event_discard = false;
  after_cr = false;
  started = false;
  discard = false;
  usage = no_usage;
  protocol = protocol;
  text_seen = false;
  failed = false;
  completed = false;
  saw_event = false;
  require_completion = require_completion;
  event_type = [];
}

abbrev pub is_failure : List ℕ → Bool
is_failure kind =
    bytes_eq kind (codes "error")
    || (bytes_eq kind (codes "response.failed") || bytes_eq kind (codes "response.incomplete"))

abbrev pub is_completion : List ℕ → Bool
is_completion kind =
    bytes_eq kind (codes "response.completed") || bytes_eq kind (codes "message_stop")

-- `eventHasText`, behind the decoding of the delta and the choices.
abbrev pub event_has_text : List ℕ → Event → Protocol → Bool
event_has_text kind e responses =
    bytes_eq kind (codes "response.output_text.delta") && e.delta_is_text
event_has_text kind e messages =
    bytes_eq kind (codes "content_block_delta") && e.delta_is_text_delta
event_has_text kind e chat = e.choice_has_text
event_has_text kind e unknown = false

abbrev pub merge_raw : Protocol → Option (Option UsageFields) → Usage → Usage
merge_raw protocol none u = u
merge_raw protocol (some raw) u = merge u (parse_usage_object_for_protocol raw protocol)

abbrev pub is_empty : List ℕ → Bool
is_empty [] = true
is_empty (_ ∷ _) = false

unfoldable pub take_event : Event → Parser → Parser
take_event e p =
    let kind = if is_empty e.kind then p.event_type else e.kind in
    record p {
      saw_event = true;
      failed = p.failed || (is_failure kind || e.has_error);
      completed = p.completed || is_completion kind;
      usage =
          merge_raw p.protocol e.message_usage
            (merge_raw p.protocol e.response_usage (merge_raw p.protocol e.usage p.usage));
      text_seen = p.text_seen || event_has_text kind e p.protocol;
    }

-- `bytes.TrimPrefix(line, "\xef\xbb\xbf")`.
abbrev pub trim_bom : List ℕ → List ℕ
trim_bom (a ∷ b ∷ c ∷ rest) =
    if nat_beq a 239 && (nat_beq b 187 && nat_beq c 191) then rest else a ∷ b ∷ c ∷ rest
trim_bom line = line

-- `bytes.Cut(line, ":")`: the field and the value.
abbrev pub cut : List ℕ → List ℕ × List ℕ
cut [] = ([], [])
cut (c ∷ rest) =
    let (field, value) = cut rest in if nat_beq c b':' then ([], rest) else (c ∷ field, value)

abbrev pub trim_blank : List ℕ → List ℕ
trim_blank [] = []
trim_blank (c ∷ rest) = if nat_beq c b' ' then rest else c ∷ rest

abbrev pub add_data : List ℕ → Parser → Parser
add_data value p =
    if p.event_discard
    then p
    else (if ltb max_sse_event_bytes (length p.event_data + length value + 1)
        then record p { event_data = []; event_discard = true }
        else record p { event_data = p.event_data ++ (value ++ newline ∷ []) })

abbrev pub set_field : List ℕ → List ℕ → Parser → Parser
set_field field value p =
    if bytes_eq field (codes "event")
    then record p { event_type = value }
    else (if bytes_eq field (codes "data") then add_data value p else p)

abbrev pub end_event : Parser → Parser
end_event p = record p { event_data = []; event_type = []; event_discard = false }

-- `append`, which keeps the bytes of a line up to the limit.
unfoldable pub append : List ℕ → Parser → Parser
append content p =
    if p.discard
    then p
    else (if ltb max_sse_event_bytes (length p.pending + length content)
        then record p { pending = []; discard = true }
        else record p { pending = p.pending ++ content })

abbrev pub is_newline : ℕ → Bool
is_newline c = nat_beq c carriage_return || nat_beq c newline

-- `bytes.IndexAny(content, "\r\n")`: what stands before the first newline, it, and the rest.
unfoldable pub split_line : List ℕ → Option (List ℕ × ℕ × List ℕ)
split_line [] = none
split_line (c ∷ rest) =
    let later = split_line rest in
    if is_newline c
    then some ([], c, rest)
    else elim later [ none ↦ none | some (before, n, after) ↦ some (c ∷ before, n, after) ]

-- The two rounds of the loop of `Feed`: the skipped newline after a carriage return, and a line.
abbrev pub skips : List ℕ → Parser → Bool
skips [] p = false
skips (c ∷ rest) p = p.after_cr && nat_beq c newline

abbrev pub tail_of : List ℕ → List ℕ
tail_of [] = []
tail_of (c ∷ rest) = rest

module _ (x : External) where
  unfoldable pub dispatch : Parser → Parser
  dispatch p =
      if p.event_discard || is_empty p.event_data
      then p
      else (let content = x.trim_space p.event_data in
          if bytes_eq content (codes "[DONE]")
          then record p { completed = true }
          else elim (x.decode content) [ none ↦ p | some e ↦ take_event e p ])

  unfoldable pub parse_line : List ℕ → Parser → Parser
  parse_line raw p =
      let line = if p.started then raw else trim_bom raw in
      let p' = record p { started = true } in
      if is_empty line
      then end_event (dispatch p')
      else (let (field, value) = cut line in set_field field (trim_blank value) p')

  -- What `Feed` does at a newline.
  unfoldable pub end_line : ℕ → Parser → Parser
  end_line c p =
      let p' = if p.discard then record p { event_discard = true } else parse_line p.pending p in
      record p' { pending = []; discard = false; after_cr = nat_beq c carriage_return }

  -- `Feed`, with fuel for its rounds: each takes at least one byte.
  unfoldable pub feed_rounds : ℕ → List ℕ → Parser → Parser
  feed_rounds zero content p = p
  feed_rounds (suc fuel) content p =
      let p' = record p { after_cr = false } in
      let skipped = feed_rounds fuel (tail_of content) p' in
      let line : Parser = elim (split_line content) [
        | none ↦ append content p'
        | some (before, n, after) ↦ feed_rounds fuel after (end_line n (append before p'))
      ] in
      if is_empty content then p else (if skips content p then skipped else line)

  unfoldable pub feed : List ℕ → Parser → Parser
  unfolding feed_rounds
  feed content p = feed_rounds (length content) content p

unfoldable pub parser_usage : Parser → Usage
parser_usage p = normalize_usage_for_protocol p.usage p.protocol

abbrev pub is_known : Protocol → Bool
is_known unknown = false
is_known _ = true

pub data StreamError : Type 0 where
  reported_failure ended_early : StreamError

unfoldable pub stream_error : Parser → Option StreamError
stream_error p =
    if p.failed
    then some reported_failure
    else (if (p.require_completion || (p.saw_event && is_known p.protocol)) && not p.completed
        then some ended_early
        else none)
