-- ===== src/Forms.antt =====
-- What the console's forms do with a page: ui/vite-opentask/src/pages/login/components and
-- ui/vite-opentask/src/pages/taskInfos/components. `useMutation`, the toasts and the navigation are
-- other packages'; the first is a parameter, and of the others the page keeps what was asked of them.
-- The calls of console.error are left out.
pub mod Calls
pub mod Fields
pub mod Login
pub mod NewTask
pub mod SwitchEnable
use open_task.Common.{String, Bool, ◌≡◌, Option, none, some, List, ◌∷◌, ok, throw, if◌then◌else◌}
use open_task.Js.Value.{Value, string, get, is_nullish}
use open_task.Js.Exception.{
  Exception, type_error, range_error, syntax_error, network_error, response_error, fetch_error,
  required_error, plain_error, thrown, Result, Response,
}
use open_task.Runtime.Io.{Io}
use open_task.Runtime.Config.{FetchParams}
use open_task.Runtime.Fetch.{BaseApi, new_api}
use open_task.AppConfig.{config}

-- A message that a form shows: `toast.error` or `toast.success`.
pub data Notice : Type 0 where
  failure success : Value → Notice

-- A page: the network and the browser's storage, the messages shown, the latest first, the keys of
-- the queries asked to be read again, the path, and the states `isLoading` and `open` of the form.
pub record Page (N : Type 0) : Type 0 where
  pub browser : N
  pub notices : List Notice
  pub invalidated : List String
  pub path : String
  pub is_loading : Bool
  pub is_open : Bool

-- The argument of `useMutation`.
pub record MutationOptions (W V A : Type 0) : Type 0 where
  pub mutation_fn : V → Io W A
  pub on_success : A → Io W (Unit {0})
  pub on_error : Exception → Io W (Unit {0})
  pub on_settled : Io W (Unit {0})

-- `useMutation(options).mutate`, as its documentation has it: what `mutationFn` resolves to goes to
-- `onSuccess`, what it rejects with to `onError`, and `onSettled` comes last. Of a handler that throws
-- itself nothing is assumed.
pub record Mutations (W : Type 0) : Type 1 where
  pub mutate : {V A : Type 0} → MutationOptions W V A → V → W → W
  pub resolves :
      {V A : Type 0} (o : MutationOptions W V A) (v : V) (a : A) (w w₁ w₂ : W)
      → o.mutation_fn v w ≡ (ok a, w₁)
      → o.on_success a w₁ ≡ (ok tt, w₂)
      → mutate o v w ≡ (o.on_settled w₂).1
  pub rejects :
      {V A : Type 0} (o : MutationOptions W V A) (v : V) (e : Exception) (w w₁ w₂ : W)
      → o.mutation_fn v w ≡ (throw e, w₁)
      → o.on_error e w₁ ≡ (ok tt, w₂)
      → mutate o v w ≡ (o.on_settled w₂).1

-- A change of the page that cannot fail.
abbrev pub change : {W : Type 0} → (W → W) → Io W (Unit {0})
change f w = (ok tt, f w)

module _ {N : Type 0} where
  abbrev pub show : Notice → Page N → Page N
  show notice w = record w { notices = notice ∷ w.notices }

  abbrev pub set_loading : Bool → Page N → Page N
  set_loading b w = record w { is_loading = b }

  abbrev pub set_open : Bool → Page N → Page N
  set_open b w = record w { is_open = b }

  -- `queryClient.invalidateQueries({ queryKey: [key] })`
  abbrev pub invalidate : String → Page N → Page N
  invalidate key w = record w { invalidated = key ∷ w.invalidated }

  -- A call of the client acts on the network and the storage.
  abbrev pub transport : (FetchParams → Io N Response) → FetchParams → Io (Page N) Response
  transport fetch p w = let (r, n) = fetch p w.browser in (r, record w { browser = n })

  abbrev pub read_item : (N → String → Option String) → Page N → String → Option String
  read_item get_item w = get_item w.browser

  -- `new …Api(config)`
  unfoldable pub console : (N → String → Option String) → String → BaseApi (Page N)
  unfolding config new_api
  console get_item api_url = new_api (config (read_item get_item) api_url)

-- `error.message`; the messages of the platform's own errors are a parameter.
unfoldable pub message : (Exception → String) → Exception → Result Value
message platform_message (response_error r m) = ok (string m)
message platform_message (fetch_error cause m) = ok (string m)
message platform_message (required_error field m) = ok (string m)
message platform_message (plain_error m) = ok (string m)
message platform_message (thrown v) =
    if is_nullish v then throw type_error else ok (get v "message")
message platform_message type_error = ok (string (platform_message type_error))
message platform_message range_error = ok (string (platform_message range_error))
message platform_message syntax_error = ok (string (platform_message syntax_error))
message platform_message network_error = ok (string (platform_message network_error))

-- `onError` of each form: `toast.error(error.message)`
unfoldable pub show_error : {N : Type 0} → (Exception → String) → Exception → Io (Page N) (Unit {0})
unfolding message
show_error platform_message e w = elim (message platform_message e) [
  | ok m ↦ (ok tt, show (failure m) w)
  | throw x ↦ (throw x, w)
]
