-- ===== src/Runtime.antt =====
-- ui/vite-opentask/src/apis-gen/runtime.ts: the part of the generated client that every call goes
-- through.
pub mod Io
pub mod Regex
pub mod Mime
pub mod Config
pub mod Query
pub mod Fetch
pub mod Responses
