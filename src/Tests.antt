-- ===== src/Tests.antt =====
-- Runs of the theorems at concrete inputs.
mod Samples
mod Models
mod Requests
mod Console
mod Toasts
mod Tokens
mod Dialogs
mod Libraries
mod Forms
mod Home
mod Lists
mod Pages
