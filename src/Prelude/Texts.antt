-- ===== src/Prelude/Texts.antt =====
-- Whole texts that the code only compares: the library's String, as an instance of equality.
use Prim.Native.String.{String}
use text.Mathlib.Text.{◌==◌ as str_eq}
use text.Mathlib.TextEquality.{eq_iff}
use wird.Prelude.{HasEq}

instance abbrev pub string_eq : HasEq String
string_eq = record { eqb_iff = eq_iff; eqb = str_eq }
