-- ===== src/Js.antt =====
-- What the program uses of JavaScript: errors and promises, texts, numbers.
pub mod Error
pub mod Text
pub mod Number
pub mod Fixed
pub mod Sort
