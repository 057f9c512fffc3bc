-- ===== src/Samples/Reading.antt =====
-- Reading: the active participle of a strong root, and a hollow verb.
use mathlib.Core.List.Memᴰ
use wird.Prelude.{◌≡◌, refl, [], ◌∷◌, Has, nat_eq, list_eq, arith}
use wird.Text.{Word}
use wird.Text.Letters.{alef, ain, beh, feh, kaf, lam, teh, waw, yeh}
use wird.Root.Strip.{ends_in_unpeelable_suffix}
use wird.Root.Wazn.{templates}
use wird.Root.Pattern.{
  match_pattern, match_templates, hollow, apply, add_new, roots_at, second_readings, third_readings,
  radical_readings, third_is_one_among_several,
}
use wird.Root.Pattern.ReadBack.{inflect, match_pattern_reads_back}
use wird.Samples.Tables.{tables}

abbrev said : Word
said = kaf ∷ alef ∷ lam ∷ []

-- The alef in the middle stands for either weak letter.
hollow_readings : match_pattern tables said ≡ (kaf ∷ waw ∷ lam ∷ []) ∷ (kaf ∷ yeh ∷ lam ∷ []) ∷ []
unfolding match_pattern match_templates templates hollow apply add_new roots_at second_readings
    third_readings radical_readings third_is_one_among_several ends_in_unpeelable_suffix
hollow_readings = refl

match_pattern_reads_back_example :
    Has
      (match_pattern tables (inflect (feh ∷ alef ∷ ain ∷ lam ∷ []) kaf teh beh))
      (kaf ∷ teh ∷ beh ∷ [])
match_pattern_reads_back_example =
    match_pattern_reads_back tables (feh ∷ alef ∷ ain ∷ lam ∷ []) kaf teh beh (Memᴰ.head refl)
      (λ e. omega arith) (λ e. omega arith) (λ e. omega arith) refl
