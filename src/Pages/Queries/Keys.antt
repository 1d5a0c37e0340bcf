-- ===== src/Pages/Queries/Keys.antt =====
-- Which requests share an entry of the query's cache.
use open_task.Common.{◌≡◌, ◌≢◌, refl, [], ◌∷◌, arith, String}
use open_task.Js.Value.{Value}
use open_task.Apis.TaskInfoApi.{ListTaskInfosRequest}
use open_task.Pages.Queries.{
  PaginationState, ColumnFilters, GlobalFilters, find_filter, filter_elems, pagination_value,
  global_value, task_infos_request, logs_request, clients_request, task_infos_key, logs_key,
  clients_key, use_task_infos_key,
}

find_filter_of_elems :
    (id : String) (fs gs : ColumnFilters)
    → filter_elems fs ≡ filter_elems gs
    → find_filter id fs ≡ find_filter id gs
unfolding find_filter filter_elems
find_filter_of_elems id [] [] e = refl
find_filter_of_elems id [] (g ∷ gs) e = cc
find_filter_of_elems id (f ∷ fs) [] e = cc
find_filter_of_elems id ((i, v) ∷ fs) ((j, u) ∷ gs) e =
    ground (arith, e, find_filter_of_elems id fs gs)

-- Two states of the page of tasks that share an entry of the query's cache ask for the same.
pub task_infos_keys :
    (p q : PaginationState) (fs gs : ColumnFilters)
    → task_infos_key p fs ≡ task_infos_key q gs
    → task_infos_request p fs ≡ task_infos_request q gs
unfolding task_infos_key task_infos_request pagination_value
task_infos_keys p q fs gs e = ground (arith, e, find_filter_of_elems "name" fs gs)

-- So do two states of the page of logs.
logs_keys :
    (p q : PaginationState) (fs gs : ColumnFilters) (g h : GlobalFilters)
    → logs_key p fs g ≡ logs_key q gs h
    → logs_request p g ≡ logs_request q h
unfolding logs_key logs_request pagination_value global_value
logs_keys p q fs gs g h e = ground (arith, e)

-- Any two pages of the clients with different indices share an entry of the query's cache, and ask for
-- different things.
pub clients_keys :
    (p q : PaginationState)
    → p.page_index ≢ q.page_index
    → (clients_key p ≡ clients_key q) × (clients_request p ≢ clients_request q)
unfolding clients_key clients_request
clients_keys p q h = (refl, λ e. ground (arith, h, e))

-- The hook's key leaves out the name that is asked for.
use_task_infos_keys :
    (request : ListTaskInfosRequest) (name : Value)
    → use_task_infos_key (record request { name = name }) ≡ use_task_infos_key request
unfolding use_task_infos_key
use_task_infos_keys request name = refl
