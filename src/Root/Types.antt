-- ===== src/Root/Types.antt =====
-- jidhr/pkg/root/types.go, and the records of store.go and root.go that pass between the store, the
-- resolver and its callers. Absent text is the empty text, as the JSON tags have it, and a count of
-- occurrences is a natural number.
use wird.Prelude.{ℕ, Bool, List, Option}
use wird.Prelude.Map.{Map}
use wird.Text.{Word}

-- `unset` is the zero value, the empty string.
pub data Method : Type 0 where
  unset lexicon normalized lemma stripped pattern_match shared : Method

pub record Root : Type 0 where
  pub letters : Word
  pub display : Word
  pub translit : Word

pub record QuranStats : Type 0 where
  pub occurrences : ℕ

pub record Meaning : Type 0 where
  pub plain : Word
  pub poetic : Word

pub record Result : Type 0 where
  pub input : Word
  pub normalized : Word
  pub root : Root
  pub roots : List Root
  pub rootless : Bool
  pub lemma : Word
  pub form : Word
  pub method : Method
  pub quran : Option QuranStats
  pub meanings : Map Word Meaning

pub record Entry : Type 0 where
  pub surface : Word
  pub lemma : Word
  pub form : Word
  pub root : Word

pub record RootRecord : Type 0 where
  pub root : Root
  pub quran : Option QuranStats

pub record Candidate : Type 0 where
  pub letters : Word
  pub known : Bool

pub record NoRootError : Type 0 where
  pub word : Word
  pub normalized : Word
  pub rootless : Bool
  pub candidates : List Candidate
