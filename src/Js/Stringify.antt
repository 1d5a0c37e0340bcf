-- ===== src/Js/Stringify.antt =====
-- `JSON.stringify(value)`: the text of a request's body.
pub mod Plain
use Prim.Native.Char.{Char, code}
use Prim.Native.String
use open_task.Common.{
  ℕ, ◌+◌, ◌-◌, ◌/◌, ◌%◌, String, ◌<>◌, ◌==◌, true, false, ltb, eqb, if◌then◌else◌, ◌≡◌, refl,
}
use open_task.Common.Int.{ℤ, pos, negsuc}
use open_task.Js.Value.{
  DateValue, invalid, time, Value, undefined, null, boolean, number, string, date, array, set,
  object, host, Elems, nil, cons, Props, empty, prop, is_undefined,
}
use open_task.Js.Text.{Platform, char_text, hex_digit, integer_text}

-- The last digit of an escape, which JSON writes in small letters.
small_hex : ℕ → String
small_hex n =
    if eqb n 10
    then "a"
    else if eqb n 11
    then "b"
    else if eqb n 12
    then "c"
    else if eqb n 13
    then "d"
    else if eqb n 14
    then "e"
    else if eqb n 15
    then "f"
    else char_text (hex_digit n)

escape : Char → String
escape c =
    if eqb (code c) 34
    then "\\\""
    else if eqb (code c) 92
    then "\\\\"
    else if eqb (code c) 8
    then "\\b"
    else if eqb (code c) 9
    then "\\t"
    else if eqb (code c) 10
    then "\\n"
    else if eqb (code c) 12
    then "\\f"
    else if eqb (code c) 13
    then "\\r"
    else if ltb (code c) 32
    then "\\u00" <> (char_text (hex_digit (code c / 16)) <> small_hex (code c % 16))
    else char_text c

escaped : String → String
escaped String.[] = ""
escaped (String.◌∷◌ c s) = escape c <> escaped s

quote : String → String
quote s = "\"" <> (escaped s <> "\"")

date_json : Platform → DateValue → String
date_json d invalid = "null"
date_json d (time t) = quote (d.iso t)

-- A property and the properties behind it; the comma stands between two that are defined.
joined : String → String → String
joined s t = if t == "" then s else s <> ("," <> t)

module _ (d : Platform) where
  unfoldable mutual
    unfolding quote escaped escape small_hex hex_digit date_json integer_text joined

    text_of : Value → String
    text_of undefined = "null"
    text_of null = "null"
    text_of (boolean true) = "true"
    text_of (boolean false) = "false"
    text_of (number n) = integer_text n
    text_of (string s) = quote s
    text_of (date t) = date_json d t
    text_of (array vs) = "[" <> (items_text vs <> "]")
    text_of (set vs) = "{}"
    text_of (object ps) = "{" <> (props_text ps <> "}")
    text_of (host h) = "{}"

    items_text : Elems → String
    items_text nil = ""
    items_text (cons v vs) = joined (text_of v) (items_text vs)

    props_text : Props → String
    props_text empty = ""
    props_text (prop k v ps) =
        let rest = props_text ps in
        let this = joined (quote k <> (":" <> text_of v)) rest in
        if is_undefined v then rest else this

  -- undefined where the value has no JSON text
  unfoldable pub stringify : Value → Value
  unfolding text_of
  stringify undefined = undefined
  stringify v = string (text_of v)

stringify_test :
    (d : Platform)
    → stringify d (
        object (
          prop "a"
            (array (cons (number (negsuc 11)) (cons undefined nil)))
            (prop "gone" undefined (prop "q\"" (string "x\ny") empty))))
      ≡ string "{\"a\":[-12,null],\"q\\\"\":\"x\\ny\"}"
unfolding stringify
stringify_test d = refl
