-- ===== src/Gateway/StreamTests.antt =====
-- The stream parser and the response buffer on concrete bytes.
use d_api.Base.{ℕ, ◌+◌, ◌≡◌, refl, true, false, none, some, List, [], ◌∷◌, arith}
use d_api.Base.Int.{pos}
use d_api.Gateway.Usage.{Usage, no_usage, responses}
use d_api.Gateway.Sse.{External, Parser, new, feed, codes}
use d_api.Gateway.Sse.Chunks.{feed_all, concat, feed_all-concat}
use d_api.Gateway.Budget.{ByteBudget, ResponseBuffer, Reading, running, finished, read_response}
use d_api.Gateway.Budget.Buffer.{Holds}
use d_api.Gateway.Budget.Read.{read_response-total, read_response-Holds, arrivals}

-- A decoder that takes every event for one of its text's type.
abbrev pub typed : External
typed = record {
  trim_space = λ bs. bs;
  decode = λ bs. some (record {
    kind = [];
    has_error = false;
    usage = none;
    response_usage = none;
    message_usage = none;
    delta_is_text = false;
    delta_is_text_delta = false;
    choice_has_text = false;
  });
}

abbrev pub first_half : List ℕ
first_half = codes "event: response.failed\r"

abbrev pub second_half : List ℕ
second_half = 10 ∷ codes "data: {}\n\n"

feed_all-concat_example :
    feed_all typed (first_half ∷ second_half ∷ []) (new responses true)
    ≡ feed typed (concat (first_half ∷ second_half ∷ [])) (new responses true)
feed_all-concat_example = feed_all-concat typed (first_half ∷ second_half ∷ []) responses true

abbrev failed_stream : Parser
failed_stream = record (new responses true) { failed = true }

abbrev counted : Usage
counted = record no_usage { input_tokens = some (pos 100); cached_input_tokens = some (pos 60) }

abbrev grow : ℕ → ℕ → ℕ
grow old needed = needed + needed

abbrev fresh_buffer : ResponseBuffer
fresh_buffer = record {
  content = [];
  capacity = 0;
  has_budget = true;
  limit = 100000000;
  reserved = 0;
}

abbrev shared : ByteBudget
shared = record { used = 5000 }

fresh-Holds : Holds 5000 fresh_buffer shared
fresh-Holds = record {
  budgeted = refl;
  accounted = refl;
  reserves = refl;
  fits = omega arith;
  capped = omega arith;
  limited = omega arith;
}

abbrev begun : Reading
begun = record { buffer = fresh_buffer; budget = shared; ttfb_ms = none; outcome = running }

abbrev body : List (ℕ × List ℕ)
body = (10, 1 ∷ 2 ∷ []) ∷ (20, 3 ∷ []) ∷ []

read_response-total_example :
    (read_response grow 0 (arrivals body 30 (4 ∷ [])) begun).outcome ≡ finished (1 ∷ 2 ∷ 3 ∷ 4 ∷ [])
read_response-total_example =
    read_response-total grow 0 5000 body 30 (4 ∷ []) begun refl fresh-Holds (omega arith)
      (omega arith)

read_response-Holds_example :
    Holds 5000
      (read_response grow 0 (arrivals body 30 (4 ∷ [])) begun).buffer
      (read_response grow 0 (arrivals body 30 (4 ∷ [])) begun).budget
read_response-Holds_example =
    read_response-Holds grow 0 5000 (arrivals body 30 (4 ∷ [])) begun fresh-Holds
