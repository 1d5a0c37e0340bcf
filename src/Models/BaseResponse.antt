-- ===== src/Models/BaseResponse.antt =====
-- The envelope of every answer. The generated client repeats it in nine files of
-- ui/vite-opentask/src/apis-gen/models that differ in the type of `result` (LoginResponseBaseResponse.ts
-- and its like), and in three whose `result` is any object. `success` is read and never written.
use open_task.Common.{Bool, true, false, ◌≡◌, sym, arith, refl, ok, ◌>>=◌}
use open_task.Js.Value.{Value, boolean, get_prop, undefined, object, Props, empty, prop, get}
use open_task.Js.Text.{Platform}
use open_task.Js.Json.{get_prop-wire_props, wire_props, wire}
use open_task.Js.Exception.{Result}
use open_task.Models.Codec.{
  Nullable, given, Codec, decode, encode, read, read_child, IsOptional, is_string, is_number,
  is_boolean, IsOptionalOf,
}
use open_task.Models.Codec.RoundTrip.{
  IsLawful, child_carried, number_field, string_field, missing_field,
}

pub record BaseResponse (R : Type 0) : Type 0 where
  pub code : Value
  pub success : Value
  pub result : Nullable R
  pub message : Value
  pub trace_id : Value

-- A `result` that is any object: `json['result'] == null ? undefined : json['result']`.
raw_to_json : Nullable Value → Result Value
raw_to_json value = encode value (λ v. ok v)

unfoldable pub raw : Codec Value
unfolding raw_to_json
raw = record { from_json = λ v. ok (given v); to_json = raw_to_json }

module _ {R : Type 0} (results : Codec R) where
  unfoldable pub from_json_typed : Value → Bool → Result (Nullable (BaseResponse R))
  from_json_typed json ignore_discriminator = decode json (do
    result ← read_child results (get json "result")
    ok (record {
      code = read (get json "code");
      success = read (get json "success");
      result = result;
      message = read (get json "message");
      trace_id = read (get json "traceId");
    }))

  unfoldable pub from_json : Value → Result (Nullable (BaseResponse R))
  unfolding from_json_typed
  from_json json = from_json_typed json false

  abbrev pub sent : Value → BaseResponse R → Props
  sent result m =
      (prop "code" m.code
        (prop "result" result (prop "message" m.message (prop "traceId" m.trace_id empty))))

  unfoldable pub to_json : Nullable (BaseResponse R) → Result Value
  to_json value =
      encode value (λ m. do result ← results.to_json m.result; ok (object (sent result m)))

  unfoldable pub codec : Codec (BaseResponse R)
  unfolding from_json to_json
  codec = record { from_json = from_json; to_json = to_json }

module _ {R : Type 0} where
  -- The interface of an envelope, over that of its result.
  pub record IsWellTyped (P : R → Type 0) (m : BaseResponse R) : Type 0 where
    pub code : IsOptional is_number m.code
    pub success : IsOptional is_boolean m.success
    pub result : IsOptionalOf P m.result
    pub message : IsOptional is_string m.message
    pub trace_id : IsOptional is_string m.trace_id

  -- What the decoder makes of an encoded envelope: all but `success`, which is not sent.
  abbrev pub unsuccessful : BaseResponse R → BaseResponse R
  unsuccessful m = record m { success = undefined }

  -- An encoded envelope, as it arrives and is decoded.
  pub record Arrives (d : Platform) (c : Codec R) (m : BaseResponse R) : Type 0 where
    pub sent_props : Props
    pub sends : to_json c (given m) ≡ ok (object sent_props)
    pub receives : from_json c (object (wire_props d sent_props)) ≡ ok (given (unsuccessful m))

-- What the encoder makes of a well-typed envelope arrives with the same code, result, message and
-- trace id, and with no `success`, for every lawful codec of the result.
pub to_json-Arrives :
    {R : Type 0} (d : Platform) (c : Codec R) {P : R → Type 0}
    → IsLawful d c P
    → (m : BaseResponse R) → IsWellTyped P m
    → Arrives d c m
unfolding from_json to_json
to_json-Arrives d c l m t =
    let result = child_carried d l m.result t.result in
    let ps : Props = sent c result.value m in
    record {
      sent_props = ps;
      sends = rw (result.sends);
      receives = rw (
        get_prop-wire_props d ps "result" refl,
        result.receives,
        number_field d ps "code" refl t.code,
        string_field d ps "message" refl t.message,
        string_field d ps "traceId" refl t.trace_id,
        missing_field d ps "success" refl refl,
      );
    }

-- The envelope that is read from an object of success around an encoded result.
abbrev pub succeeded : {R : Type 0} → Props → R → BaseResponse R
succeeded ps result = record {
  code = read (get_prop ps "code");
  success = boolean true;
  result = given result;
  message = read (get_prop ps "message");
  trace_id = read (get_prop ps "traceId");
}

pub from_json_succeeded :
    {R : Type 0} (d : Platform) (c : Codec R) {P : R → Type 0}
    → IsLawful d c P
    → (ps : Props) (result : R) (encoded : Value) → get_prop ps "success" ≡ boolean true
    → get_prop ps "result" ≡ wire d encoded
    → c.to_json (given result) ≡ ok encoded
    → P result
    → from_json c (object ps) ≡ ok (given (succeeded ps result))
unfolding from_json from_json_typed
from_json_succeeded d c l ps result encoded succeeds arrived made typed =
    let carried = child_carried d l (given result) typed in
    let same : carried.value ≡ encoded = ground (arith, made, carried.sends) in
    rw (arrived, sym same, carried.receives, succeeds) refl
