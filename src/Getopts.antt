-- ===== src/Getopts.antt =====
-- app/getopts.c: the command line, and the configuration that it sets.
pub mod Values
pub mod Headers
pub mod Lists
pub mod Table
pub mod Options
pub mod Post
pub mod Safety
pub mod Rounds
pub mod Codecs
pub mod Arrays
pub mod Sent
