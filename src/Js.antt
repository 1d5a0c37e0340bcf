-- ===== src/Js.antt =====
-- The JavaScript values that the console passes between the page and the server, the exceptions
-- that its code throws, and what JSON keeps of a value.
pub mod Value
pub mod Text
pub mod TextSet
pub mod Stringify
pub mod Uri
pub mod Json
pub mod Exception
