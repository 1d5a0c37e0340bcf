-- ===== src/Forms/SwitchEnable.antt =====
-- ui/vite-opentask/src/pages/taskInfos/components/switch-status.tsx
pub mod Clicks
use open_task.Common.{String, Bool, true, false, Option, not, if◌then◌else◌}
use open_task.Js.Value.{Value, boolean, string, truthy}
use open_task.Js.Text.{Platform}
use open_task.Js.Exception.{Exception, Response, type_error}
use open_task.Models.Codec.{Nullable, missing, nulled, given}
use open_task.Models.BaseResponse.{BaseResponse}
use open_task.Models.SwitchTaskStatusRequest.{SwitchTaskStatusRequest}
use open_task.Runtime.Io.{Io, pure, raise}
use open_task.Runtime.Config.{FetchParams}
use open_task.Runtime.Fetch.{no_overrides}
use open_task.Apis.TaskInfoApi.{switch_task_status}
use open_task.Forms.{
  Page, failure, MutationOptions, Mutations, change, show, set_open, invalidate, transport, console,
  show_error,
}

-- The component's properties; of the task that it hands to `mutate` these two are read.
pub record Enabled : Type 0 where
  pub enabled : Bool
  pub id : String

-- `useState(enabled)`: only the first rendering reads the property.
unfoldable pub mounted : {N : Type 0} → Enabled → Page N → Page N
mounted props w = set_open props.enabled w

-- `{ taskId: task.id, enabled: !task.enabled }`
unfoldable pub request_of : Enabled → SwitchTaskStatusRequest
request_of task = record { task_id = string task.id; enabled = boolean (not task.enabled) }

-- The text beside the switch.
unfoldable pub label : {N : Type 0} → Page N → String
label w = if w.is_open then "已启用" else "已禁用"

module _ {N : Type 0} (d : Platform) (platform_message : Exception → String)
    (get_item : N → String → Option String) (api_url : String)
    (fetch : FetchParams → Io N Response) where
  unfoldable pub mutation_fn : Enabled → Io (Page N) (Nullable (BaseResponse Value))
  unfolding request_of
  mutation_fn task =
      switch_task_status d (transport fetch) (console get_item api_url)
        (record { switch_task_status_request = given (request_of task) }) no_overrides

  -- `open` is that of the rendering before the click.
  unfoldable pub on_success : Bool → Nullable (BaseResponse Value) → Io (Page N) (Unit {0})
  on_success is_open missing = raise type_error
  on_success is_open nulled = raise type_error
  on_success is_open (given response) =
      if not (truthy response.success)
      then change (show (failure response.message))
      else change (λ w. invalidate "listTaskInfos" (set_open (not is_open) w))

  unfoldable pub mutation : Bool → MutationOptions (Page N) Enabled (Nullable (BaseResponse Value))
  unfolding mutation_fn on_success
  mutation is_open = record {
    mutation_fn = mutation_fn;
    on_success = on_success is_open;
    on_error = show_error platform_message;
    on_settled = pure tt;
  }

  -- `onCheckedChange`
  unfoldable pub on_checked_change : Mutations (Page N) → Enabled → Page N → Page N
  on_checked_change m props w = m.mutate (mutation w.is_open) props w
