-- ===== src/Models/GetNext5TriggertimesResponse.antt =====
-- ui/vite-opentask/src/apis-gen/models/GetNext5TriggertimesResponse.ts. The interface declares an
-- array of dates, and the decoder passes on what arrived.
use open_task.Common.{Bool, false, ◌≡◌, refl, ok, List, [], ◌∷◌, ap}
use open_task.Common.Int.{ℤ}
use open_task.Js.Value.{
  Value, string, date, array, object, time, Elems, nil, cons, empty, prop, get,
}
use open_task.Js.Text.{Platform}
use open_task.Js.Json.{wire, wire_elems}
use open_task.Js.Exception.{Result}
use open_task.Models.Codec.{Nullable, given, Codec, decode, encode, read}

pub record GetNext5TriggertimesResponse : Type 0 where
  pub next_triggers : Value

unfoldable pub from_json_typed : Value → Bool → Result (Nullable GetNext5TriggertimesResponse)
from_json_typed json ignore_discriminator =
    decode json (ok (record { next_triggers = read (get json "nextTriggers") }))

unfoldable pub from_json : Value → Result (Nullable GetNext5TriggertimesResponse)
unfolding from_json_typed
from_json json = from_json_typed json false

unfoldable pub to_json : Nullable GetNext5TriggertimesResponse → Result Value
to_json value = encode value (λ m. ok (object (prop "nextTriggers" m.next_triggers empty)))

unfoldable pub codec : Codec GetNext5TriggertimesResponse
unfolding from_json to_json
codec = record { from_json = from_json; to_json = to_json }

-- The dates at some times, and their texts.
abbrev pub dates : List ℤ → Elems
dates [] = nil
dates (t ∷ ts) = cons (date (time t)) (dates ts)

abbrev pub texts : Platform → List ℤ → Elems
texts d [] = nil
texts d (t ∷ ts) = cons (string (d.iso t)) (texts d ts)

wire_elems-dates : (d : Platform) (ts : List ℤ) → wire_elems d (dates ts) ≡ texts d ts
unfolding wire
wire_elems-dates d [] = refl
wire_elems-dates d (t ∷ ts) = ap (cons (string (d.iso t))) (wire_elems-dates d ts)

-- A list of trigger times that arrives through JSON is decoded to the list of their ISO texts, and
-- not to the dates that the interface declares.
from_json-wire-dates :
    (d : Platform) (ts : List ℤ)
    → from_json (wire d (object (prop "nextTriggers" (array (dates ts)) empty)))
      ≡ ok (given (record { next_triggers = array (texts d ts) }))
unfolding from_json wire
from_json-wire-dates d ts = rw (wire_elems-dates d ts)
