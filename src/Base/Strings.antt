-- ===== src/Base/Strings.antt =====
-- What the program uses of Go's strings, bufio and strconv packages, over code points.
pub mod Space
pub mod Lines
pub mod Words
pub mod Decimal
