-- ===== src/Session/Users.antt =====
-- Who the current user is.
use open_task.Common.{
  Bool, some, refl, ℕ, ◌+◌, ◌*◌, ◌≤◌, ◌<◌, String, ◌==◌, ◌≡◌, true, false, none, ok, leb, ltb,
  arith,
}
use open_task.Common.Int.{ℤ, pos, ◌-ℤ◌, ltb_ℤ}
use open_task.Js.Value.{Value, undefined, number, string, object, Props, get_prop}
use open_task.Js.Text.{js_string}
use open_task.Session.{
  Host, jwt_decode, current_user, user_of, expiration, is_expiring, to_number, date_of_seconds,
}

ltb_ℤ-sub : (a b c : ℕ) → ltb_ℤ (pos a -ℤ pos b) (pos c) ≡ ltb a (b + c)
unfolding ◌-ℤ◌
ltb_ℤ-sub a b c = ground arith

module _ (h : Host) where
  is_expiring_lem :
      (seconds now : ℕ)
      → h.now ≡ pos now
      → seconds * 1000 ≤ 8640000000000000
      → is_expiring h (expiration h (number (pos seconds))) ≡ ltb (seconds * 1000) (now + 300000)
  unfolding is_expiring expiration to_number date_of_seconds
  is_expiring_lem seconds now clock dated =
      let fits : leb (seconds * 1000) 8640000000000000 ≡ true = ground arith in
      rw (fits, clock, ltb_ℤ-sub (seconds * 1000) now 300000)

  -- Outside the mock mode, for a token that is not empty, decodes to an object and has a whole
  -- number of seconds, not negative and at most the largest time value, as its exp, and a clock that
  -- is not before the epoch: there is no current user if exp is less than five minutes after now,
  -- and else the user is the JSON of the payload's User, or a SyntaxError.
  pub current_user_by_expiry :
      (token : String) (ps : Props) (seconds now : ℕ)
      → (token == "") ≡ false
      → jwt_decode h (string token) false ≡ ok (object ps)
      → get_prop ps "exp" ≡ number (pos seconds)
      → h.now ≡ pos now
      → h.is_mock ≡ false
      → seconds * 1000 ≤ 8640000000000000
      → (seconds * 1000 < now + 300000 → current_user h token ≡ ok none)
        × (now + 300000 ≤ seconds * 1000 → current_user h token ≡ user_of h (object ps))
  unfolding current_user
  current_user_by_expiry token ps seconds now real decoded exp clock mode dated =
      let soon = is_expiring_lem seconds now clock dated in
      (
        λ lt. rw (real, decoded, exp, soon, mode) (ground arith),
        λ le. rw (real, decoded, exp, soon, mode) (ground arith),
      )

  -- A token that is not empty and decodes to an object without exp, whose User is the text of a JSON
  -- value, gives that value as the current user at every time of the clock and in both modes.
  pub current_user_without_exp :
      (token text : String) (ps : Props) (user : Value) (now : ℤ) (is_mock : Bool)
      → (token == "") ≡ false
      → jwt_decode h (string token) false ≡ ok (object ps)
      → get_prop ps "exp" ≡ undefined
      → get_prop ps "User" ≡ string text
      → h.parse_json text ≡ some user
      → current_user (record h { now = now; is_mock = is_mock }) token ≡ ok (some user)
  unfolding current_user expiration is_expiring to_number user_of js_string
  current_user_without_exp token text ps user now is_mock real decoded absent named parsed =
      rw (real, decoded, absent, named, parsed) refl
