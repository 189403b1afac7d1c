-- ===== src/Gateway/Transport/Tests.antt =====
-- A client, a body and its rewriting.
use d_api.Base.{
  ◌≡◌, ◌⊎◌, ◌≤◌, refl, arith, String, true, some, List, [], ◌∷◌, ◌==◌, string_key, All,
  if◌then◌else◌,
}
use d_api.Base.Maps.{lookup}
use d_api.Gateway.Transport.{
  transport_key, Transports, key_of, client, Field, Json, RequestPayload, RequestBodies,
  parse_request_payload, take_fields, take_field, for_model,
}
use d_api.Gateway.Transport.Clients.{IsCache, Reused, Made, client_lem}
use d_api.Gateway.Transport.Payload.{
  models, Names, IsRewritten, parse_request_payload-Names, for_model-IsRewritten,
}

abbrev kept : Transports
kept = record { entries = (key_of 0 0 0, record { client = 0; used = 7 }) ∷ []; made = 1 }

kept-IsCache : IsCache kept
unfolding lookup
kept-IsCache = record { fits = omega arith; distinct = (refl, tt); used = (omega arith, tt) }

client_lem_example :
    IsCache (client (key_of 3 0 0) 9 kept).0
    × (Reused (key_of 3 0 0) 9 kept (client (key_of 3 0 0) 9 kept)
        ⊎ Made (key_of 3 0 0) 9 kept (client (key_of 3 0 0) 9 kept))
client_lem_example = client_lem (key_of 3 0 0) 9 kept (omega arith) kept-IsCache

-- A body is the list of its fields, whose values are texts.
abbrev json : Json (List (Field String)) String
json = record {
  is_object = λ body. true;
  fields = λ body. body;
  ends = λ body. true;
  is_all = λ body. true;
  read_string = λ v. some v;
  read_bool = λ v. some (v == "true");
  equal_fold = λ a b. a == b;
  replace = λ body model. some (Field.field "model" model ∷ []);
}

abbrev asked : List (Field String)
asked = Field.field "model" "gpt" ∷ Field.field "stream" "true" ∷ []

abbrev payload : RequestPayload
payload = record { model = "gpt"; stream = true }

abbrev claude : String
claude = "claude"

parse_request_payload-Names_example :
    (models json asked ≤ 1)
    × All (Names json payload.model) asked
    × (models json asked ≡ 0 → payload.model ≡ "")
unfolding parse_request_payload take_fields take_field
parse_request_payload-Names_example = parse_request_payload-Names json asked payload refl

abbrev bodies : RequestBodies (List (Field String))
bodies = record { body = asked; model = "gpt"; rewritten = [] }

for_model-IsRewritten_example :
    let done = for_model json claude bodies in
    IsRewritten json done.0
    × (done.0.body ≡ asked)
    × (done.0.model ≡ bodies.model)
    × (done.1 ≡ (if claude == bodies.model then some asked else json.replace asked claude))
for_model-IsRewritten_example = for_model-IsRewritten json claude bodies tt
