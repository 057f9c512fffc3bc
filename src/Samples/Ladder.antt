-- ===== src/Samples/Ladder.antt =====
-- The resolver over a store that has one form, of one root, and over the sample corpus.
use wird.Prelude.{true, false, ◌≡◌, ◌≢◌, refl, [], ◌∷◌, nat_eq, list_eq, ◌==◌, if◌then◌else◌}
use wird.Prelude.Attempt.{done, fail}
use wird.Text.{Word, is_space, trim_left, trim_right, trim_space}
use wird.Text.Letters.{meem, noon}
use wird.Root.Types.{Result, NoRootError, lexicon}
use wird.Root.Store.{Store, not_found}
use wird.Root.Normalize.{in_arabic_block, folded, dropped, normalize, key, spell_out}
use wird.Root.Memory.{new_memory_store, memory}
use wird.Root.Pattern.{match_pattern}
use wird.Root.Resolve.{
  no_root, store_error, is_arabic_word, arabic_letters, lookup, from_entry, from_letters,
  with_meanings,
}
use wird.Root.Resolve.Ladder.{
  normal_form, blank, settle_rootless, rungs, after_lookup, resolve_trimmed, resolve, resolve_word,
}
use wird.Root.Resolve.Spec.{Answered, Missed}
use wird.Root.Resolve.Outcomes.{resolve_justified, resolve_no_root}
use wird.Root.Resolve.Templates.{templates_decide_nothing}
use wird.Root.Resolve.OverMemory.{resolve-memory}
use wird.Samples.Tables.{tables}
use wird.Samples.Corpus.{corpus, wrote, ktb, ktb_record, wrote_entry, from_particle}

-- "and", a Latin word
abbrev latin : Word
latin = 0x61 ∷ 0x6E ∷ 0x64 ∷ []

-- One form of one root, and one particle without a root.
abbrev pub small : Store
small = record {
  entry_by_surface = λ w. if w == wrote then done wrote_entry else fail not_found;
  entry_by_normalized = λ w. fail not_found;
  entry_by_lemma = λ w. fail not_found;
  root = λ w. done ktb_record;
  attests_surface = λ w. done [];
  rootless = λ w. done false;
  rootless_surface = λ w. done (w == from_particle);
  attests = λ w. done [];
  meanings = λ w langs. done [];
}

abbrev wrote_result : Result
wrote_result = record {
  input = wrote;
  normalized = ktb;
  root = ktb_record.root;
  roots = [];
  rootless = false;
  lemma = ktb;
  form = [];
  method = lexicon;
  quran = ktb_record.quran;
  meanings = [];
}

abbrev particle_error : NoRootError
particle_error = record {
  word = from_particle;
  normalized = meem ∷ noon ∷ [];
  rootless = true;
  candidates = [];
}

trim-wrote : trim_space wrote ≡ wrote
unfolding trim_space trim_left trim_right is_space
trim-wrote = refl

wrote_arabic : is_arabic_word tables wrote ≡ true
unfolding is_arabic_word arabic_letters dropped
wrote_arabic = refl

resolve-wrote : resolve (match_pattern tables) small tables wrote [] ≡ done wrote_result
unfolding resolve resolve_trimmed trim_space trim_left trim_right is_space is_arabic_word
    arabic_letters dropped settle_rootless rungs after_lookup lookup from_entry from_letters
    with_meanings blank normal_form key normalize folded in_arabic_block spell_out
resolve-wrote = refl

resolve-particle :
    resolve (match_pattern tables) small tables from_particle [] ≡ fail (no_root particle_error)
unfolding resolve resolve_trimmed trim_space trim_left trim_right is_space is_arabic_word
    arabic_letters dropped settle_rootless normal_form key normalize folded in_arabic_block
    spell_out
resolve-particle = refl

resolve_justified_example :
    Answered small (trim_space wrote) (normal_form tables (trim_space wrote)) wrote_result
resolve_justified_example =
    resolve_justified (match_pattern tables) small tables wrote [] wrote_result resolve-wrote

resolve_no_root_example :
    Missed small
      (trim_space from_particle)
      (normal_form tables (trim_space from_particle))
      particle_error
resolve_no_root_example =
    resolve_no_root (match_pattern tables) small tables from_particle [] particle_error
      resolve-particle

templates_decide_nothing_example : resolve (λ w. []) small tables wrote [] ≡ done wrote_result
templates_decide_nothing_example =
    templates_decide_nothing (match_pattern tables) (λ w. []) small tables wrote [] wrote_result
      resolve-wrote

resolve-memory_example :
    resolve_word tables (memory (new_memory_store tables corpus)) wrote []
    ≢ fail (store_error not_found)
resolve-memory_example = resolve-memory tables (new_memory_store tables corpus) wrote [] not_found
