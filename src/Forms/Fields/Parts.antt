-- ===== src/Forms/Fields/Parts.antt =====
-- Which parts of which field the ids on a page name.
use Prim.Native.Char.{Char, code}
use text.Mathlib.TextLemmas.{append_cancel_right, nil-append, cons-append}
use open_task.Common.{
  ℕ, String, ◌<>◌, ◌≡◌, refl, sym, ap, ◌∙◌, ◌↔◌, Option, none, some, ok, throw, if◌then◌else◌,
  Bool-cases, inl, inr, arith,
}
use open_task.Js.Value.{Value, string, object, Props, empty, get, get_prop, assign, truthy}
use open_task.Js.Text.{Platform, js_string}
use open_task.Js.Exception.{Result}
use open_task.Forms.Fields.{
  Contexts, FieldInfo, form_field, form_item, use_form_field, form_label, form_control,
  form_description, form_message,
}

-- The parts of a field that have an id.
pub data Part : Type 0 where
  control description message : Part

abbrev suffix : Part → String
suffix control = "-form-item"
suffix description = "-form-item-description"
suffix message = "-form-item-message"

-- The code of the last character of a text, if it has one.
last_code : ℕ → String → ℕ
last_code n String.[] = n
last_code n (String.◌∷◌ c s) = last_code (code c) s

last_code-append :
    (n : ℕ) (c : Char) (s t : String) → last_code n (s <> String.◌∷◌ c t) ≡ last_code (code c) t
unfolding last_code
last_code-append n c String.[] t = ap (last_code n) (nil-append (String.◌∷◌ c t))
last_code-append n c (String.◌∷◌ x s) t =
    ap (last_code n) (cons-append x s (String.◌∷◌ c t)) ∙ last_code-append (code x) c s t

ends_alike :
    (a b : String) (c x : Char) (s t : String)
    → a <> String.◌∷◌ c s ≡ b <> String.◌∷◌ x t
    → last_code (code c) s ≡ last_code (code x) t
ends_alike a b c x s t e =
    sym (last_code-append 0 c a s) ∙ ap (last_code 0) e ∙ last_code-append 0 x b t

-- No id of a control is that of another part.
apart : (a b : String) (k : Part) → a <> "-form-item" ≡ b <> suffix k → (k ≡ control) × (a ≡ b)
unfolding last_code
apart a b control e = (refl, append_cancel_right a b "-form-item" e)
apart a b description e =
    let alike : 109 ≡ 110 = ends_alike a b "-" "-" "form-item" "form-item-description" e in
    absurd (omega (arith, alike))
apart a b message e =
    let alike : 109 ≡ 101 = ends_alike a b "-" "-" "form-item" "form-item-message" e in
    absurd (omega (arith, alike))

module _ (d : Platform) (get_field_state : Value → Value) where
  -- A property of what is rendered.
  abbrev pub attribute : String → Result Props → Option Value
  attribute k (ok props) = some (get_prop props k)
  attribute k (throw e) = none

  abbrev shown : Result (Option (Props × Value)) → Option Value
  shown (ok (some (props, body))) = some (get_prop props "id")
  shown (ok none) = none
  shown (throw e) = none

  -- The id of a part with no properties of its own, if it is rendered.
  unfoldable pub id_of : Part → Contexts → Value → Option Value
  id_of control c children = attribute "id" (form_control d get_field_state c empty)
  id_of description c children = attribute "id" (form_description d get_field_state c empty)
  id_of message c children = shown (form_message d get_field_state c children empty)

  some_string : {v w : String} → some (string v) ≡ some (string w) → v ≡ w
  some_string e = ap (λ o. elim o [ some (string t) ↦ t | _ ↦ "" ]) e

  named_apart :
      (a b name : String) (outer : Contexts) (k : Part) (children : Value)
      → some (string (a <> "-form-item")) ≡ id_of k (form_item b (form_field name outer)) children
      → (k ≡ control) × (a ≡ b)
  unfolding id_of form_control form_description form_message use_form_field form_item form_field
      js_string assign
  named_apart a b name outer control children e = apart a b control (some_string e)
  named_apart a b name outer description children e = apart a b description (some_string e)
  named_apart a b name outer message children e =
      let error = get_field_state (string name) in
      elim (Bool-cases
        (truthy (if truthy error then string (js_string d (get error "message")) else children))) [
          | inl shows ↦ apart a b message (some_string (e ∙ rw shows refl))
          | inr hides ↦ absurd (cc (e, hides))
        ]

  -- The contexts are objects, `{}` where there is no provider: the error is never thrown.
  use_form_field_ok :
      (c : Contexts) (ps : Props)
      → (f : FieldInfo) × (use_form_field d get_field_state (record c { field = object ps }) ≡ ok f)
  unfolding use_form_field
  use_form_field_ok c ps = (_, refl)

  -- In an item below a FormField, whose parts have no properties of their own, the htmlFor of the
  -- label is the id of a part of an item exactly if that part is the control and its item has the
  -- same id, whatever the errors of the fields and whether or not their messages are rendered.
  pub label_names :
      (a b name other : String) (outer outer' : Contexts) (k : Part) (children : Value)
      → (attribute "htmlFor"
            (form_label d get_field_state (form_item a (form_field name outer)) empty)
          ≡ id_of k (form_item b (form_field other outer')) children)
        ↔ ((k ≡ control) × (a ≡ b))
  unfolding id_of form_label form_control form_description form_message use_form_field form_item
      form_field js_string assign
  label_names a b name other outer outer' k children =
      (named_apart a b other outer' k children, λ h. rw (h.0, h.1) refl)
