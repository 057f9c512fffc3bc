-- ===== src/Samples/Corpus.antt =====
-- A corpus of two forms of one root, a spelling that two roots share, and a particle.
use wird.Prelude.{some, List, [], ◌∷◌, nat_eq, list_eq}
use wird.Prelude.Map.{Map}
use wird.Text.{Word}
use wird.Text.Letters.{beh, kaf, lam, meem, noon, teh}
use wird.Root.Types.{Entry, RootRecord}
use wird.Root.Memory.{Corpus}

abbrev pub ktb : Word
ktb = kaf ∷ teh ∷ beh ∷ []

abbrev pub kll : Word
kll = kaf ∷ lam ∷ lam ∷ []

-- "he wrote", vowelled
abbrev pub wrote : Word
wrote = kaf ∷ 0x064E ∷ teh ∷ 0x064E ∷ beh ∷ []

-- a spelling of two roots, without its vowels
abbrev pub kl : Word
kl = kaf ∷ lam ∷ []

-- "from", vowelled
abbrev pub from_particle : Word
from_particle = meem ∷ 0x0650 ∷ noon ∷ []

abbrev pub wrote_entry : Entry
wrote_entry = record { surface = wrote; lemma = ktb; form = []; root = ktb }

abbrev pub ktb_record : RootRecord
ktb_record = record {
  root = record { letters = ktb; display = ktb; translit = [] };
  quran = some (record { occurrences = 319 });
}

abbrev attested : Map Word (List Word)
attested = (wrote, ktb ∷ []) ∷ (kl, kll ∷ ktb ∷ []) ∷ []

abbrev pub corpus : Corpus
corpus = record {
  roots = ktb_record ∷ [];
  entries = wrote_entry ∷ [];
  meanings = [];
  attested = attested;
  rootless = from_particle ∷ [];
}

abbrev reordered : Map Word (List Word)
reordered = (kl, kll ∷ ktb ∷ []) ∷ (wrote, ktb ∷ []) ∷ []
