-- ===== src/AppConfig/Token.antt =====
-- The token of a login in the browser's storage, and in the requests.
use text.Mathlib.TextLemmas.{nil-append, cons-append}
use open_task.Common.{String, ◌<>◌, true, ◌≡◌, refl, ap, ◌∙◌, Option, some}
use open_task.Js.Value.{string}
use open_task.Js.Text.{Platform}
use open_task.Js.Stringify.{stringify}
use open_task.Js.Stringify.Plain.{is_plain, is_plain-parts, stringify_plain}
use open_task.AppConfig.{remove_quote, stored_token}

remove_quote-append : (t : String) → is_plain t ≡ true → remove_quote (t <> "\"") ≡ t
unfolding remove_quote
remove_quote-append String.[] h = refl
remove_quote-append (String.◌∷◌ c t) h =
    let parts = is_plain-parts c t h in
    ap remove_quote (cons-append c t "\"")
    ∙ rw (parts.0) (ap (String.◌∷◌ c) (remove_quote-append t parts.3))

remove_quote-quotes :
    (t : String) → is_plain t ≡ true → remove_quote (remove_quote ("\"" <> (t <> "\""))) ≡ t
unfolding remove_quote
remove_quote-quotes t h =
    ap (λ s. remove_quote (remove_quote s))
      (cons-append "\"" String.[] (t <> "\"") ∙ ap (String.◌∷◌ "\"") (nil-append (t <> "\"")))
    ∙ remove_quote-append t h

module _ {W : Type 0} (d : Platform) (get_item : W → String → Option String) where
  -- A token without quotation marks, backslashes and control characters that the browser's storage
  -- holds as its JSON text is read back as it was.
  pub stored_token-stringify :
      (t text : String) (w : W)
      → is_plain t ≡ true
      → stringify d (string t) ≡ string text
      → get_item w "token" ≡ some text
      → stored_token get_item w ≡ t
  unfolding stored_token remove_quote
  stored_token-stringify t text w plain written held =
      let same : text ≡ "\"" <> (t <> "\"") = cc (written, stringify_plain d t plain) in
      rw (stored_token, held, same) (remove_quote-quotes t plain)
