-- ===== src/Etl/Corpus.antt =====
-- The rows of the corpus, from server/cmd/etl/load.go, irab.go and senses.go.
use wird.Prelude.{ℕ, Option, List}
use wird.Text.{Word}
use wird.Senses.Corpus.{Support}
use wird.Etl.Rows.{Surah, Recited, Recitation}
use wird.Etl.Recite.{RecitationError}

pub record Ayah : Type 0 where
  pub id : ℕ
  pub surah : ℕ
  pub number : ℕ
  pub text_uthmani : Word
  pub text_fr : Word
  pub text_en : Word

pub record CorpusWord : Type 0 where
  pub id : ℕ
  pub ayah : ℕ
  pub position : ℕ
  pub text_ar : Word
  pub translit : Word
  pub gloss_en : Word
  pub root_letters : Word
  pub form : Word
  pub morphology : Word
  pub gloss_fr : Word
  pub wbw_path : Word
  pub lemma_key : Word
  pub lemma : Word

pub record RootRow : Type 0 where
  pub letters : Word
  pub display : Word
  pub latin : Word
  pub occurrences : ℕ

pub record Audio : Type 0 where
  pub ayah : ℕ
  pub rel_path : Word

pub record MorphSegment : Type 0 where
  pub form : Word
  pub tag : Word
  pub features : List Word

pub record IrabRow : Type 0 where
  pub word : ℕ
  pub position : ℕ
  pub code : Word
  pub features : Word

pub record IrabRole : Type 0 where
  pub code : Word
  pub en : Word
  pub fr : Word

-- A sense, less the numbers that are there for a reader.
pub record Sense : Type 0 where
  pub root : Word
  pub sense_en : Word
  pub sense_fr : Word
  pub support : List Support

pub record SenseFile : Type 0 where
  pub attribution : Word
  pub source : Word
  pub basis : Word
  pub senses : List Sense

pub record Corpus : Type 0 where
  pub notice : Word
  pub surahs : List Surah
  pub ayahs : List Ayah
  pub words : List CorpusWord
  pub roots : List RootRow
  pub audio : List Audio
  pub recited : List Recited
  pub refused : List (Recitation × RecitationError)
  pub irab : List IrabRow
  pub sense_file : Option SenseFile
  pub french_glosses_missed : ℕ
  pub orphans : ℕ
