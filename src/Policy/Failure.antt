-- ===== src/Policy/Failure.antt =====
-- merge.go, MergeAssignedPayloads: the error path, and the fold that depends on the order.
use arx_mdm.Prelude.{
  ◌≡◌, ◌↔◌, inl, inr, true, false, List, [], ◌∷◌, arith, Text, text_leb, Any, Bool-cases, ◌==◌,
}
use arx_mdm.Prelude.Result.{err, Result-cases}
use arx_mdm.Policy.Json.{Encoding, null, bool}
use arx_mdm.Policy.Types.{AssignedPayload}
use arx_mdm.Policy.Scalars.{is_denial, pick_loop}
use arx_mdm.Policy.Merge.{
  MergeError, bad_payload, Contributors, decode_payload, collect, merge_assigned_payloads,
}

module _ (E : Encoding) where
  open E use {Float, marshal}

  -- A profile with an id whose payload is no JSON object.
  abbrev pub IsBad : AssignedPayload → Type 0
  IsBad input =
      ((input.source.id == 0) ≡ false)
      × (decode_payload E input ≡ err (bad_payload input.source.id))

  decode_payload-err :
      (input : AssignedPayload) (x : MergeError)
      → decode_payload E input ≡ err x
      → decode_payload E input ≡ err (bad_payload input.source.id)
  unfolding decode_payload
  decode_payload-err input x h = ground arith

  collect-IsBad :
      (inputs : List AssignedPayload) (acc : Contributors Float) (x : MergeError)
      → collect E inputs acc ≡ err x
      → Any IsBad inputs
  unfolding collect
  collect-IsBad [] acc x h = cc
  collect-IsBad (input ∷ inputs) acc x h = elim (Bool-cases (input.source.id == 0)) [
    | inl e ↦ inr (collect-IsBad inputs acc x (rw e at h))
    | inr e ↦ elim (Result-cases (decode_payload E input)) [
      | inl (root, d) ↦ inr (collect-IsBad inputs _ x (rw (e, d) at h))
      | inr (y, d) ↦ inl (e, decode_payload-err input y d)
    ]
  ]

  collect_of_IsBad :
      (inputs : List AssignedPayload) (acc : Contributors Float)
      → Any IsBad inputs
      → (x : MergeError) × (collect E inputs acc ≡ err x)
  unfolding collect
  collect_of_IsBad [] acc h = absurd h
  collect_of_IsBad (input ∷ inputs) acc (inl (e, d)) = (bad_payload input.source.id, rw (e, d))
  collect_of_IsBad (input ∷ inputs) acc (inr h) = elim (Bool-cases (input.source.id == 0)) [
    | inl e ↦ rw e (collect_of_IsBad inputs acc h)
    | inr e ↦ elim (Result-cases (decode_payload E input)) [
      | inl (root, d) ↦ rw (e, d) (collect_of_IsBad inputs _ h)
      | inr (y, d) ↦ (y, rw (e, d))
    ]
  ]

  -- The merge fails exactly if some profile with an id has a payload that does not decode.
  pub merge_assigned_payloads-err_iff :
      (inputs : List AssignedPayload)
      → ((x : MergeError) × (merge_assigned_payloads E inputs ≡ err x)) ↔ Any IsBad inputs
  unfolding merge_assigned_payloads
  merge_assigned_payloads-err_iff inputs = (
    (λ (x, h). elim (Result-cases (collect E inputs [])) [
      | inl (cs, c) ↦ cc (h, c)
      | inr (y, c) ↦ collect-IsBad inputs [] y c
    ]),
    λ h. let (x, c) = collect_of_IsBad inputs [] h in (x, rw c),
  )

  -- At a denying key the fold over values of mixed kinds depends on the order of the profiles,
  -- wherever the encodings are ordered as those of `false`, `null` and `true` are: the same three
  -- values give `true` in one order and `false` in another.
  pub pick_loop_order :
      (leaf_key : Text)
      → is_denial leaf_key ≡ true
      → text_leb (marshal (bool false)) (marshal null) ≡ true
      → text_leb (marshal null) (marshal (bool false)) ≡ false
      → text_leb (marshal null) (marshal (bool true)) ≡ true
      → text_leb (marshal (bool true)) (marshal null) ≡ false
      → (pick_loop E leaf_key (bool false) (null ∷ bool true ∷ []) ≡ bool true)
        × (pick_loop E leaf_key (bool true) (null ∷ bool false ∷ []) ≡ bool false)
  unfolding pick_loop
  pick_loop_order leaf_key d a b c e = ground arith
