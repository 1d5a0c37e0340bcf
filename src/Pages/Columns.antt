-- ===== src/Pages/Columns.antt =====
-- The cells of the tables that compute something: columns.tsx of
-- ui/vite-opentask/src/pages/taskLogs/components and pages/clients/components. Icons are left out, and
-- the columns whose cell is the row's value.
pub mod Statuses
use Prim.Native.Char.{code}
use Prim.Native.String
use open_task.Common.{
  ℕ, ◌+◌, ◌-◌, ◌*◌, String, ◌==◌, Bool, true, false, ◌&&◌, Option, none, some, List, [], ◌∷◌, leb,
  eqb, if◌then◌else◌, length,
}
use open_task.Common.Int.{ℤ, pos, eqb_ℤ}
use open_task.Js.Value.{
  Value, undefined, null, boolean, number, string, date, array, DateValue, Elems, nil, cons,
}

-- The number that the language reads from a text of decimal digits, and 0 from the empty one. None
-- stands for NaN; of the other texts that are numerals no status is one.
digits : ℕ → String → Option ℕ
digits acc String.[] = some acc
digits acc (String.◌∷◌ c s) =
    if leb b'0' (code c) && leb (code c) b'9' then digits (acc * 10 + (code c - b'0')) s else none

unfoldable pub number_of : String → Option ℕ
unfolding digits
number_of s = digits 0 s

-- `text == value`, the loose equality, for a value that is nullish, a number, a boolean or a text.
unfoldable pub loosely_equal : String → Value → Bool
unfolding number_of
loosely_equal s (string t) = s == t
loosely_equal s (number n) = elim (number_of s) [ none ↦ false | some k ↦ eqb_ℤ (pos k) n ]
loosely_equal s (boolean b) = elim (number_of s) [
  | none ↦ false
  | some k ↦ eqb k (if b then 1 else 0)
]
loosely_equal s v = false

pub record Status : Type 0 where
  pub value : String
  pub label : String

unfoldable pub statuses : List Status
statuses =
    record { value = ""; label = "未知" }
    ∷ record { value = "0"; label = "待执行" }
    ∷ record { value = "1"; label = "执行中" }
    ∷ record { value = "2"; label = "完成" }
    ∷ record { value = "3"; label = "失败" }
    ∷ record { value = "canceled"; label = "取消" }
    ∷ []

-- `statuses.find((status) => status.value == …)`
unfoldable pub find_status : Value → List Status → Option Status
unfolding loosely_equal
find_status v [] = none
find_status v (status ∷ rest) =
    if loosely_equal status.value v then some status else find_status v rest

-- The cell of "handleStatus": the status's label, or null.
unfoldable pub status_cell : Value → Option String
unfolding statuses find_status
status_cell handle_status = elim (find_status handle_status statuses) [
  | none ↦ none
  | some status ↦ some status.label
]

-- The cell of "startTime": `time instanceof Date && time.toDateString()`, none where it is false.
unfoldable pub start_time_cell : (DateValue → String) → Value → Option String
start_time_cell to_date_string (date t) = some (to_date_string t)
start_time_cell to_date_string v = none

elem_list : Elems → List Value
elem_list nil = []
elem_list (cons v vs) = v ∷ elem_list vs

-- The cell of "handelrs": how many there are, and each; none of a value that is undefined or null.
unfoldable pub handlers_cell : Value → Option (ℕ × List Value)
unfolding elem_list
handlers_cell (array vs) = some (length (elem_list vs), elem_list vs)
handlers_cell v = none
