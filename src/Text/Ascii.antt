-- ===== src/Text/Ascii.antt =====
-- Literals of the source in ASCII, as words.
use Prim.Native.String.{String}
use Prim.Native.Char.{code}
use wird.Prelude.{[], ◌∷◌}
use wird.Text.{Word}

abbrev pub ascii : String → Word
ascii String.[] = []
ascii (String.◌∷◌ c s) = code c ∷ ascii s
