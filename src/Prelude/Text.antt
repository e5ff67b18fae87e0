-- ===== src/Prelude/Text.antt =====
-- Texts put together, as a template literal does.
use Prim.Native.String.{String, ◌++◌}

abbrev pub template : String → String → String → String → String
template a x b y = a ++ (x ++ (b ++ y))
