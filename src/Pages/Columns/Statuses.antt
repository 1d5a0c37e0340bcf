-- ===== src/Pages/Columns/Statuses.antt =====
-- What the table of logs shows of a log's status.
use open_task.Common.{◌≡◌, some, none, if◌then◌else◌, arith, eqb, ℕ}
use open_task.Common.Int.{pos, negsuc}
use open_task.Js.Value.{number}
use open_task.Pages.Columns.{status_cell, find_status, statuses, loosely_equal, number_of}

-- Of a log whose status is a whole number the table shows the label of an unknown status for 0, the
-- labels running, done and failed for 1, 2 and 3, and nothing for any other number, also a negative
-- one.
pub status_cell_of_number :
    (n : ℕ)
    → (status_cell (number (pos n)) ≡ (
        if eqb n 0
        then some "未知"
        else if eqb n 1
        then some "执行中"
        else if eqb n 2
        then some "完成"
        else if eqb n 3
        then some "失败"
        else none))
      × (status_cell (number (negsuc n)) ≡ none)
unfolding status_cell find_status statuses loosely_equal number_of
status_cell_of_number n = (ground arith, ground arith)
