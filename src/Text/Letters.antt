-- ===== src/Text/Letters.antt =====
-- The Arabic letters that the root package's tables spell, by their Unicode names.
use wird.Prelude.{ℕ}

abbrev pub hamza : ℕ
hamza = 0x0621

abbrev pub alef : ℕ
alef = 0x0627

abbrev pub beh : ℕ
beh = 0x0628

abbrev pub teh : ℕ
teh = 0x062A

abbrev pub seen : ℕ
seen = 0x0633

abbrev pub ain : ℕ
ain = 0x0639

abbrev pub feh : ℕ
feh = 0x0641

abbrev pub kaf : ℕ
kaf = 0x0643

abbrev pub lam : ℕ
lam = 0x0644

abbrev pub meem : ℕ
meem = 0x0645

abbrev pub noon : ℕ
noon = 0x0646

abbrev pub heh : ℕ
heh = 0x0647

abbrev pub waw : ℕ
waw = 0x0648

abbrev pub yeh : ℕ
yeh = 0x064A

abbrev pub dagger_alef : ℕ
dagger_alef = 0x0670
