-- ===== src/Onboarding/Bus/Responses.antt =====
-- `normalizeRpcResponse` and its tests
-- (onboarding-service/src/shared/modules/messaging/rabbit-bus.service.ts), on a JSON value.
use modularis.Base.{
  Bool, true, false, not, ◌&&◌, String, Option, none, some, ◌≡◌, str_eq, if◌then◌else◌, arith, ◌⊎◌,
  inl, inr,
}
use modularis.Json.{Json, bool, num, str, arr, obj, Fields, end, field}

abbrev pub get_field : String → Fields → Option Json
get_field k end = none
get_field k (field j v fs) = if str_eq j k then some v else get_field k fs

-- `value.key`, of a value that is an object; an array has none of the keys that are read.
abbrev pub property : String → Json → Option Json
property k (obj fs) = get_field k fs
property k _ = none

-- An array is an object too.
abbrev pub is_record : Json → Bool
is_record (obj fs) = true
is_record (arr xs) = true
is_record _ = false

-- `typeof … === 'number'`, and 'string'.
abbrev pub is_number : Option Json → Bool
is_number (some (num n)) = true
is_number _ = false

abbrev pub is_string : Option Json → Bool
is_string (some (str s)) = true
is_string _ = false

abbrev pub is_rpc_error : Option Json → Bool
is_rpc_error none = false
is_rpc_error (some e) =
    is_record e
    && is_number (property "status" e)
    && is_string (property "title" e)
    && is_string (property "detail" e)

unfoldable pub is_rpc_response : Json → Bool
is_rpc_response value = if not (is_record value) then false else elim (property "success" value) [
  | some (bool true) ↦ elim (property "data" value) [ none ↦ false | some _ ↦ true ]
  | some (bool false) ↦ is_rpc_error (property "error" value)
  | _ ↦ false
]

-- The payload of an envelope that holds an RPC response: `isRpcEnvelope`.
unfoldable pub envelope_payload : Json → Option Json
unfolding is_rpc_response
envelope_payload value = elim (property "payload" value) [
  | none ↦ none
  | some payload ↦ if is_record value && is_rpc_response payload then some payload else none
]

-- `none` stands for the throw of 'Invalid RPC response payload'.
unfoldable pub normalize_rpc_response : Json → Option Json
unfolding envelope_payload is_rpc_response
normalize_rpc_response response = elim (envelope_payload response) [
  | some payload ↦ some payload
  | none ↦ if is_rpc_response response then some response else none
]

-- A payload that is taken out has passed the test.
taken_out :
    (test : Json → Bool) (is_object : Bool) (found : Option Json) (payload : Json)
    → (elim found [ none ↦ none | some p ↦ if is_object && test p then some p else none ])
      ≡ some payload
    → (test payload ≡ true) × (found ≡ some payload)
taken_out test is_object none payload h = cc
taken_out test is_object (some p) payload h = ground arith

envelope_payload-is_rpc_response :
    (value payload : Json)
    → envelope_payload value ≡ some payload
    → (is_rpc_response payload ≡ true) × (property "payload" value ≡ some payload)
unfolding envelope_payload
envelope_payload-is_rpc_response value payload h =
    taken_out is_rpc_response (is_record value) (property "payload" value) payload h

normalized :
    (test : Json → Bool) (found : Option Json) (reply response : Json)
    → (elim found [ some p ↦ some p | none ↦ if test reply then some reply else none ])
      ≡ some response
    → ((test response ≡ true) × (response ≡ reply)) ⊎ (found ≡ some response)
normalized test none reply response h = ground arith
normalized test (some p) reply response h = inr h

-- What a promise is resolved with is an RPC response: the reply itself, or the payload of the
-- envelope that it is.
pub normalize_rpc_response-is_rpc_response :
    (reply response : Json)
    → normalize_rpc_response reply ≡ some response
    → (is_rpc_response response ≡ true)
      × ((response ≡ reply) ⊎ (property "payload" reply ≡ some response))
unfolding normalize_rpc_response
normalize_rpc_response-is_rpc_response reply response h =
    elim (normalized is_rpc_response (envelope_payload reply) reply response h) [
      | inl (good, same) ↦ (good, inl same)
      | inr e ↦
          let (good, inside) = envelope_payload-is_rpc_response reply response e in
          (good, inr inside)
    ]
