-- ===== src/Pages.antt =====
-- The pages that list tasks, logs and clients: ui/vite-opentask/src/pages and
-- ui/vite-opentask/src/components/date-table. The tables and the queries are other packages'.
pub mod Filter
pub mod Home
pub mod Columns
pub mod Paging
pub mod Toolbars
pub mod Queries
pub mod Visibility
