-- ===== src/Gateway/Transport/Payload.antt =====
-- internal/gateway/transport.go: the model and the stream flag of a request, and the bodies sent for it.
use d_api.Base.{
  ℕ, suc, ◌+◌, ◌≤◌, ◌≡◌, refl, sym, ap, subst, ◌∙◌, String, Bool, true, false, some, List, [], ◌∷◌,
  arith, ◌==◌, string_key, if◌then◌else◌, Option-cases, Bool-cases, inl, inr, All,
}
use d_api.Base.Maps.{lookup}
use d_api.Base.Maps.Every.{Every, Every-lookup, Every-insert}
use d_api.Gateway.Transport.{
  Field, Json, RequestPayload, Seen, RequestBodies, take_field, take_fields, start,
  parse_request_payload, for_model,
}

module _ {Body V : Type 0} (x : Json Body V) where
  -- Whether the field is for the model to some decoder.
  abbrev pub is_model : Field V → Bool
  is_model (Field.field key v) = x.equal_fold key "model"
  is_model Field.broken = false

  -- The number of the fields that some decoder could take for the model.
  unfoldable pub models : List (Field V) → ℕ
  models [] = 0
  models (f ∷ fs) = let rest = models fs in if is_model f then suc rest else rest

  -- Such a field is spelled `model` and holds this model.
  abbrev pub Names : String → Field V → Type 0
  Names model (Field.field key v) =
      x.equal_fold key "model" ≡ true → (key ≡ "model") × (x.read_string v ≡ some model)
  Names model Field.broken = Unit

  abbrev one_if : Bool → ℕ
  one_if true = 1
  one_if false = 0

  take_field-model :
      (key : String) (v : V) (s s' : Seen)
      → x.equal_fold key "model" ≡ true
      → take_field x key v s ≡ some s'
      → (key ≡ "model")
        × (s.seen_model ≡ false)
        × (s'.seen_model ≡ true)
        × (x.read_string v ≡ some s'.payload.model)
  unfolding take_field
  take_field-model key v s s' mine h = elim (Option-cases (x.read_string v)) [
    | inl bad ↦ absurd (ground (arith, mine, bad, h))
    | inr (m, good) ↦ ground (arith, mine, good, h, string_key.same_iff key "model")
  ]

  take_field-other :
      (key : String) (v : V) (s s' : Seen)
      → x.equal_fold key "model" ≡ false
      → take_field x key v s ≡ some s'
      → (s'.seen_model ≡ s.seen_model) × (s'.payload.model ≡ s.payload.model)
  unfolding take_field
  take_field-other key v s s' other h = elim (Option-cases (x.read_bool v)) [
    | inl bad ↦ ground (arith, other, bad, h)
    | inr (b, good) ↦ ground (arith, other, good, h)
  ]

  -- What a run over the fields finds.
  abbrev Found : List (Field V) → Seen → Seen → Type 0
  Found fs s s' =
      (models fs + one_if s.seen_model ≡ one_if s'.seen_model)
      × All (Names s'.payload.model) fs
      × (models fs ≡ 0 → s'.payload.model ≡ s.payload.model)

  take_fields-Found :
      (fs : List (Field V)) (s s' : Seen) → take_fields x fs s ≡ some s' → Found fs s s'
  unfolding take_fields models
  take_fields-Found [] s s' h = (ground (arith, h), tt, λ _. ground (arith, h))
  take_fields-Found (Field.broken ∷ fs) s s' h = absurd cc
  take_fields-Found (Field.field key v ∷ fs) s s' h = elim (Option-cases (take_field x key v s)) [
    | inl refused ↦ absurd (ground (arith, refused, h))
    | inr (s1, taken) ↦
        let later : Found fs s1 s' = take_fields-Found fs s1 s' (ground (arith, taken, h)) in
        elim (Bool-cases (x.equal_fold key "model")) [
          | inl mine ↦
              let (spelled, new, seen, read) = take_field-model key v s s1 mine taken in
              let none_left : models fs ≡ 0 = ground (arith, later.0, seen) in
              let kept = later.2 none_left in
              (
                ground (arith, mine, later.0, new, seen),
                ((λ _. (spelled, read ∙ ap some (sym kept))), later.1),
                ground (arith, mine),
              )
          | inr other ↦
              let (same, kept) = take_field-other key v s s1 other taken in
              (
                ground (arith, other, later.0, same),
                ((λ mine. absurd (ground (arith, other, mine))), later.1),
                ground (arith, other, later.2, kept),
              )
        ]
  ]

  -- A body that is accepted has at most one field that some decoder could take for its model, however
  -- it treats capitals and repetitions; that field is spelled `model` and holds the model that the
  -- gateway goes by, and without it the gateway goes by the empty one.
  pub parse_request_payload-Names :
      (body : Body) (payload : RequestPayload)
      → parse_request_payload x body ≡ some payload
      → (models (x.fields body) ≤ 1)
        × All (Names payload.model) (x.fields body)
        × (models (x.fields body) ≡ 0 → payload.model ≡ "")
  unfolding parse_request_payload
  parse_request_payload-Names body payload h =
      elim (Option-cases (take_fields x (x.fields body) (start x))) [
        | inl refused ↦ absurd (ground (arith, refused, h))
        | inr (s, seen) ↦
            let (count, all, kept) = take_fields-Found (x.fields body) (start x) s seen in
            let same : s.payload ≡ payload = ground (arith, seen, h) in
            (
              ground (arith, count),
              subst (λ (p : RequestPayload). All (Names p.model) (x.fields body)) same all,
              λ none_there. sym (ap (λ (p : RequestPayload). p.model) same) ∙ kept none_there,
            )
      ]

  -- Every body that was kept is the one that the rewriting gives.
  abbrev pub IsRewritten : RequestBodies Body → Type 0
  IsRewritten b = Every (λ model body. x.replace b.body model ≡ some body) b.rewritten

  -- In any order of models asked for, each gets the client's own body if it is the client's model, and
  -- otherwise what rewriting that body gives; the body and its model stay.
  pub for_model-IsRewritten :
      (model : String) (b : RequestBodies Body)
      → IsRewritten b
      → let done = for_model x model b in
        IsRewritten done.0
        × (done.0.body ≡ b.body)
        × (done.0.model ≡ b.model)
        × (done.1 ≡ (if model == b.model then some b.body else x.replace b.body model))
  unfolding for_model
  for_model-IsRewritten model b all = elim (Bool-cases (model == b.model)) [
    | inl own ↦ rw (own, for_model) (all, refl, refl, refl)
    | inr other ↦
        rw (other, for_model)
          (elim (Option-cases (lookup model b.rewritten)) [
            | inr (body, found) ↦ rw found (
              all,
              refl,
              refl,
              sym (
                  Every-lookup (λ m kept. x.replace b.body m ≡ some kept) model body b.rewritten all
                    found),
            )
            | inl new ↦ rw new (elim (Option-cases (x.replace b.body model)) [
              | inl bad ↦ rw bad (all, refl, refl, refl)
              | inr (body, good) ↦ rw good (
                Every-insert (λ m kept. x.replace b.body m ≡ some kept) model body b.rewritten good
                    all,
                refl,
                refl,
                refl,
              )
            ])
          ])
  ]
