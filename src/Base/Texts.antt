-- ===== src/Base/Texts.antt =====
-- The concatenation of texts, under a name apart from that of lists.
use Prim.Native.String.{String, ◌++◌}

abbrev pub join : String → String → String
join s t = s ++ t
