-- ===== src/Forms/NewTask/Fields.antt =====
-- The fields of the form and the properties of its schema.
use open_task.Common.{
  ℕ, ◌==◌, ◌≡◌, refl, Bool, true, false, none, some, eqb, All, Bool-cases, inl, inr,
}
use open_task.Js.Value.{Value, string}
use open_task.Forms.NewTask.{FormField, field_of, task_schema, webhook_fields, fields_of_step}

-- Whether the schema has a property for the field.
is_known : FormField → Bool
is_known f = elim (field_of task_schema.fields f.name) [ none ↦ false | some s ↦ true ]

abbrev IsKnown : FormField → Type 0
IsKnown f = is_known f ≡ true

webhook_fields-IsKnown : (alarm_type : Value) → All IsKnown (webhook_fields alarm_type)
unfolding is_known webhook_fields task_schema
webhook_fields-IsKnown (string kind) = elim (Bool-cases (kind == "wxwork")) [
  | inl e ↦ rw e (refl, tt)
  | inr e ↦ rw e tt
]
webhook_fields-IsKnown alarm_type = tt

-- Whatever the step and the alarm, the form shows no field that its schema would drop.
fields_of_step-IsKnown :
    (index : ℕ) (alarm_type : Value) → All IsKnown (fields_of_step index alarm_type)
unfolding is_known fields_of_step task_schema
fields_of_step-IsKnown index alarm_type = elim (Bool-cases (eqb index 0)) [
  | inl e ↦ rw e (refl, (refl, (refl, (refl, (refl, (refl, tt))))))
  | inr e₀ ↦ rw e₀ (elim (Bool-cases (eqb index 1)) [
    | inl e ↦ rw e (refl, (refl, tt))
    | inr e₁ ↦ rw e₁ (elim (Bool-cases (eqb index 2)) [
      | inl e ↦ rw e (refl, webhook_fields-IsKnown alarm_type)
      | inr e₂ ↦ rw e₂ tt
    ])
  ])
]
