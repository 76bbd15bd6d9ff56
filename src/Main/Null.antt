-- ===== src/Main/Null.antt =====
-- A run of src/main.c with no destination on the command line.
use sippak.Config.{Config}
