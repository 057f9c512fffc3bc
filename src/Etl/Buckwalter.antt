-- ===== src/Etl/Buckwalter.antt =====
-- The Buckwalter tables of server/cmd/etl/load.go and lemma.go, and what is spelt by them.
pub mod Apart
use wird.Prelude.{
  ℕ, Bool, true, false, Option, none, some, List, [], ◌∷◌, ◌++◌, between, nat_eq, if◌then◌else◌,
}
use wird.Prelude.Map.{Map, get}
use wird.Text.{Word}

abbrev pub buckwalter_arabic : Map ℕ ℕ
buckwalter_arabic =
    (0x0041, 0x0623)
    ∷ (0x0062, 0x0628)
    ∷ (0x0074, 0x062A)
    ∷ (0x0076, 0x062B)
    ∷ (0x006A, 0x062C)
    ∷ (0x0048, 0x062D)
    ∷ (0x0078, 0x062E)
    ∷ (0x0064, 0x062F)
    ∷ (0x002A, 0x0630)
    ∷ (0x0072, 0x0631)
    ∷ (0x007A, 0x0632)
    ∷ (0x0073, 0x0633)
    ∷ (0x0024, 0x0634)
    ∷ (0x0053, 0x0635)
    ∷ (0x0044, 0x0636)
    ∷ (0x0054, 0x0637)
    ∷ (0x005A, 0x0638)
    ∷ (0x0045, 0x0639)
    ∷ (0x0067, 0x063A)
    ∷ (0x0066, 0x0641)
    ∷ (0x0071, 0x0642)
    ∷ (0x006B, 0x0643)
    ∷ (0x006C, 0x0644)
    ∷ (0x006D, 0x0645)
    ∷ (0x006E, 0x0646)
    ∷ (0x0068, 0x0647)
    ∷ (0x0077, 0x0648)
    ∷ (0x0079, 0x064A)
    ∷ []

abbrev pub quran_buckwalter : Map ℕ ℕ
quran_buckwalter =
    (0x0027, 0x0621)
    ∷ (0x007C, 0x0622)
    ∷ (0x003E, 0x0623)
    ∷ (0x0026, 0x0624)
    ∷ (0x003C, 0x0625)
    ∷ (0x007D, 0x0626)
    ∷ (0x0041, 0x0627)
    ∷ (0x0062, 0x0628)
    ∷ (0x0070, 0x0629)
    ∷ (0x0074, 0x062A)
    ∷ (0x0076, 0x062B)
    ∷ (0x006A, 0x062C)
    ∷ (0x0048, 0x062D)
    ∷ (0x0078, 0x062E)
    ∷ (0x0064, 0x062F)
    ∷ (0x002A, 0x0630)
    ∷ (0x0072, 0x0631)
    ∷ (0x007A, 0x0632)
    ∷ (0x0073, 0x0633)
    ∷ (0x0024, 0x0634)
    ∷ (0x0053, 0x0635)
    ∷ (0x0044, 0x0636)
    ∷ (0x0054, 0x0637)
    ∷ (0x005A, 0x0638)
    ∷ (0x0045, 0x0639)
    ∷ (0x0067, 0x063A)
    ∷ (0x005F, 0x0640)
    ∷ (0x0066, 0x0641)
    ∷ (0x0071, 0x0642)
    ∷ (0x006B, 0x0643)
    ∷ (0x006C, 0x0644)
    ∷ (0x006D, 0x0645)
    ∷ (0x006E, 0x0646)
    ∷ (0x0068, 0x0647)
    ∷ (0x0077, 0x0648)
    ∷ (0x0059, 0x0649)
    ∷ (0x0079, 0x064A)
    ∷ (0x0046, 0x064B)
    ∷ (0x004E, 0x064C)
    ∷ (0x004B, 0x064D)
    ∷ (0x0061, 0x064E)
    ∷ (0x0075, 0x064F)
    ∷ (0x0069, 0x0650)
    ∷ (0x007E, 0x0651)
    ∷ (0x006F, 0x0652)
    ∷ (0x005E, 0x0653)
    ∷ (0x0023, 0x0654)
    ∷ (0x0060, 0x0670)
    ∷ (0x007B, 0x0671)
    ∷ (0x003A, 0x06DC)
    ∷ (0x0040, 0x06DF)
    ∷ (0x0022, 0x06E0)
    ∷ (0x005B, 0x06E2)
    ∷ (0x003B, 0x06E3)
    ∷ (0x002C, 0x06E5)
    ∷ (0x002E, 0x06E6)
    ∷ (0x0021, 0x06E8)
    ∷ (0x002D, 0x06EA)
    ∷ (0x002B, 0x06EB)
    ∷ (0x0025, 0x06EC)
    ∷ (0x005D, 0x06ED)
    ∷ []

abbrev pub arabic_latin : Map ℕ Word
arabic_latin =
    (0x0621, 0x02BE ∷ [])
    ∷ (0x0622, 0x0101 ∷ [])
    ∷ (0x0623, 0x02BE ∷ [])
    ∷ (0x0624, 0x02BE ∷ [])
    ∷ (0x0625, 0x02BE ∷ [])
    ∷ (0x0626, 0x02BE ∷ [])
    ∷ (0x0627, 0x0101 ∷ [])
    ∷ (0x0628, 0x0062 ∷ [])
    ∷ (0x0629, 0x0074 ∷ [])
    ∷ (0x062A, 0x0074 ∷ [])
    ∷ (0x062B, 0x0074 ∷ 0x0068 ∷ [])
    ∷ (0x062C, 0x006A ∷ [])
    ∷ (0x062D, 0x1E25 ∷ [])
    ∷ (0x062E, 0x006B ∷ 0x0068 ∷ [])
    ∷ (0x062F, 0x0064 ∷ [])
    ∷ (0x0630, 0x0064 ∷ 0x0068 ∷ [])
    ∷ (0x0631, 0x0072 ∷ [])
    ∷ (0x0632, 0x007A ∷ [])
    ∷ (0x0633, 0x0073 ∷ [])
    ∷ (0x0634, 0x0073 ∷ 0x0068 ∷ [])
    ∷ (0x0635, 0x1E63 ∷ [])
    ∷ (0x0636, 0x1E0D ∷ [])
    ∷ (0x0637, 0x1E6D ∷ [])
    ∷ (0x0638, 0x1E93 ∷ [])
    ∷ (0x0639, 0x02BF ∷ [])
    ∷ (0x063A, 0x0067 ∷ 0x0068 ∷ [])
    ∷ (0x0641, 0x0066 ∷ [])
    ∷ (0x0642, 0x0071 ∷ [])
    ∷ (0x0643, 0x006B ∷ [])
    ∷ (0x0644, 0x006C ∷ [])
    ∷ (0x0645, 0x006D ∷ [])
    ∷ (0x0646, 0x006E ∷ [])
    ∷ (0x0647, 0x0068 ∷ [])
    ∷ (0x0648, 0x0077 ∷ [])
    ∷ (0x0649, 0x0079 ∷ [])
    ∷ (0x064A, 0x0079 ∷ [])
    ∷ []

abbrev pub onto_text : Option ℕ → Option Word → Option Word
onto_text none rest = none
onto_text (some a) none = none
onto_text (some a) (some rest) = some (a ∷ rest)

-- The loop on the letters, which one outside the table ends.
unfoldable pub decode : Map ℕ ℕ → Word → Option Word
decode table [] = some []
decode table (r ∷ text) = onto_text (get table r) (decode table text)

abbrev pub or_empty : Option Word → Word
or_empty none = []
or_empty (some w) = w

unfoldable pub arabic_root : Word → Word
unfolding decode
arabic_root buckwalter = or_empty (decode buckwalter_arabic buckwalter)

abbrev pub is_nil : Word → Bool
is_nil [] = true
is_nil (r ∷ w) = false

abbrev pub drop_digit : ℕ → Word → Word
drop_digit r rest = if is_nil rest then (if between 0x30 0x39 r then [] else r ∷ []) else r ∷ rest

-- strings.TrimRight(key, "0123456789")
unfoldable pub trim_digits : Word → Word
trim_digits [] = []
trim_digits (r ∷ key) = drop_digit r (trim_digits key)

-- `none` is the error on a letter outside the table.
unfoldable pub lemma_arabic : Word → Option Word
unfolding decode trim_digits
lemma_arabic key = decode quran_buckwalter (trim_digits key)

-- The letters, parted by spaces.
unfoldable pub spaced : Word → Word
spaced [] = []
spaced (r ∷ []) = r ∷ []
spaced (r ∷ s ∷ letters) = r ∷ 0x20 ∷ spaced (s ∷ letters)

abbrev pub latin_of : ℕ → Option Word → Word
latin_of r none = r ∷ []
latin_of r (some s) = s

unfoldable pub translit_root : Word → Word
translit_root [] = []
translit_root (r ∷ []) = latin_of r (get arabic_latin r)
translit_root (r ∷ s ∷ letters) =
    latin_of r (get arabic_latin r) ++ 0x2D ∷ translit_root (s ∷ letters)
