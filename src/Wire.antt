-- ===== src/Wire.antt =====
-- What the two codecs of the program share: numbers, and the loops over the fields of a value.
pub mod Nni
pub mod Slices
pub mod Words
pub mod Fields
pub mod Utf8
mod Tests
