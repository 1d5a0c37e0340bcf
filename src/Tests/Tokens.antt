-- ===== src/Tests/Tokens.antt =====
-- A browser whose clock stands at 1000 seconds, and tokens with and without an expiry.
use open_task.Common.{
  ℕ, ◌<>◌, ◌==◌, ◌≡◌, refl, true, false, none, some, if◌then◌else◌, ok, throw, ◌*◌, ◌+◌, ◌<◌, ◌≤◌,
  arith,
}
use open_task.Common.Int.{pos}
use open_task.Js.Value.{number, string, object, Props, empty, prop}
use open_task.Session
use open_task.Session.{
  Host, jwt_decode, decode_part, current_user, user_of, padded, translated, size, split_dots,
  base64_url_decode, decoded_text, escape_bytes,
}
use open_task.Session.Tokens.{jwt_decode_parts}
use open_task.Session.Users.{current_user_by_expiry, current_user_without_exp}
use open_task.Tests.Samples.{platform}

abbrev pub payload : ℕ → Props
payload seconds = prop "User" (string "user") (prop "exp" (number (pos seconds)) empty)

abbrev pub bare_payload : Props
bare_payload = prop "User" (string "user") empty

-- The text "late" is the payload of a token that ends at 5000 seconds, "bare" one without an expiry.
abbrev pub browser : Host
browser = record {
  platform = platform;
  atob = λ s. some s;
  decode_uri_component = λ s. none;
  parse_json =
      λ s. if s == "late" then some (object (payload 5000)) else some (object bare_payload);
  number_of = λ s. none;
  now = pos 1000000;
  is_mock = false;
}

current_user_by_expiry_example :
    (5000 * 1000 < 1000000 + 300000 → current_user browser "h.late.s" ≡ ok none)
    × (1000000 + 300000 ≤ 5000 * 1000
        → current_user browser "h.late.s" ≡ user_of browser (object (payload 5000)))
unfolding jwt_decode split_dots decode_part base64_url_decode translated padded decoded_text
current_user_by_expiry_example =
    current_user_by_expiry browser "h.late.s" (payload 5000) 5000 1000000 refl refl refl refl refl
      (omega arith)

current_user_without_exp_example :
    current_user (record browser { now = pos 7; is_mock = true }) "h.bare.s"
    ≡ ok (some (object bare_payload))
unfolding jwt_decode split_dots decode_part base64_url_decode translated padded decoded_text
current_user_without_exp_example =
    current_user_without_exp browser "h.bare.s" "user" bare_payload (object bare_payload) (pos 7)
      true refl refl refl refl refl

jwt_decode_parts_example :
    (jwt_decode browser (string ("h" <> ("." <> ("late" <> ("." <> "s"))))) false
      ≡ decode_part browser 1 (some "late"))
    × (jwt_decode browser (string ("h" <> ("." <> ("late" <> ("." <> "s"))))) true
        ≡ decode_part browser 0 (some "h"))
    × (jwt_decode browser (string "h") false ≡ throw (Session.missing_part 2))
jwt_decode_parts_example = jwt_decode_parts browser "h" "late" "s" refl refl
