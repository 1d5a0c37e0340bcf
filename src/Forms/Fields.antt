-- ===== src/Forms/Fields.antt =====
-- ui/vite-opentask/src/components/ui/form.tsx: how a field, its label, its control, its description
-- and its message know of each other. `getFieldState` of the form library, of which the error alone
-- is used, is a parameter, as is the text of `useId`; the properties `ref` and `className` are left
-- out. What a part renders is the object of its properties.
pub mod Parts
use open_task.Common.{String, ◌<>◌, Option, none, some, not, if◌then◌else◌, ok, throw, ◌>>=◌}
use open_task.Js.Value.{Value, boolean, string, object, Props, empty, prop, get, assign, truthy}
use open_task.Js.Text.{Platform, js_string}
use open_task.Js.Exception.{Result, plain_error}

-- `FormFieldContext` and `FormItemContext`
pub record Contexts : Type 0 where
  pub field : Value
  pub item : Value

-- Their defaults, where there is no provider.
abbrev pub no_provider : Contexts
no_provider = record { field = object empty; item = object empty }

-- What `FormField` provides for a name.
unfoldable pub form_field : String → Contexts → Contexts
form_field name c = record c { field = object (prop "name" (string name) empty) }

-- What `FormItem` provides for the text that `useId` gave it.
unfoldable pub form_item : String → Contexts → Contexts
form_item id c = record c { item = object (prop "id" (string id) empty) }

-- The result of `useFormField`.
pub record FieldInfo : Type 0 where
  pub id : Value
  pub name : Value
  pub form_item_id : String
  pub form_description_id : String
  pub form_message_id : String
  pub error : Value

abbrev pub outside_message : String
outside_message = "useFormField should be used within <FormField>"

module _ (d : Platform) (get_field_state : Value → Value) where
  -- The state of the field is asked for before the context is tested.
  unfoldable pub use_form_field : Contexts → Result FieldInfo
  use_form_field c =
      if not (truthy c.field)
      then throw (plain_error outside_message)
      else ok (record {
        id = get c.item "id";
        name = get c.field "name";
        form_item_id = js_string d (get c.item "id") <> "-form-item";
        form_description_id = js_string d (get c.item "id") <> "-form-item-description";
        form_message_id = js_string d (get c.item "id") <> "-form-item-message";
        error = get_field_state (get c.field "name");
      })

  unfoldable pub form_label : Contexts → Props → Result Props
  unfolding use_form_field
  form_label c props = do
    f ← use_form_field c
    ok (assign (prop "htmlFor" (string f.form_item_id) empty) props)

  -- `aria-describedby` of `FormControl`
  abbrev pub described_by : FieldInfo → String
  described_by f =
      if not (truthy f.error)
      then f.form_description_id
      else f.form_description_id <> (" " <> f.form_message_id)

  unfoldable pub form_control : Contexts → Props → Result Props
  unfolding use_form_field
  form_control c props = do
    f ← use_form_field c
    ok (
        assign
          (prop "id" (string f.form_item_id) (
            prop "aria-describedby" (string (described_by f))
              (prop "aria-invalid" (boolean (truthy f.error)) empty)))
          props)

  unfoldable pub form_description : Contexts → Props → Result Props
  unfolding use_form_field
  form_description c props = do
    f ← use_form_field c
    ok (assign (prop "id" (string f.form_description_id) empty) props)

  -- `error ? String(error?.message) : children`
  abbrev pub body : FieldInfo → Value → Value
  body f children =
      if truthy f.error then string (js_string d (get f.error "message")) else children

  -- The properties and the body, or nothing.
  unfoldable pub form_message : Contexts → Value → Props → Result (Option (Props × Value))
  unfolding use_form_field
  form_message c children props = do
    f ← use_form_field c
    ok (
        if not (truthy (body f children))
        then none
        else some (assign (prop "id" (string f.form_message_id) empty) props, body f children))
