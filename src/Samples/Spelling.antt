-- ===== src/Samples/Spelling.antt =====
-- Spelling: a vowelled word with an alef wasla, a dagger alef and a pause mark.
use wird.Prelude.{◌≡◌, refl, [], ◌∷◌, nat_eq, list_eq}
use wird.Text.{Word}
use wird.Text.Letters.{alef, beh, teh, kaf, lam, dagger_alef}
use wird.Root.Normalize.{key, index_keys, spell_out}
use wird.Samples.Tables.{tables}

abbrev the_book : Word
the_book = 0x0671 ∷ lam ∷ 0x0652 ∷ kaf ∷ 0x0650 ∷ teh ∷ dagger_alef ∷ beh ∷ []

key_of_the_book : key tables the_book ≡ alef ∷ lam ∷ kaf ∷ teh ∷ beh ∷ []
unfolding key
key_of_the_book = refl

keys_of_the_book :
    index_keys tables the_book
    ≡ (alef ∷ lam ∷ kaf ∷ teh ∷ beh ∷ []) ∷ (alef ∷ lam ∷ kaf ∷ teh ∷ alef ∷ beh ∷ []) ∷ []
unfolding index_keys key spell_out
keys_of_the_book = refl
