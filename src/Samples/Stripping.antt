-- ===== src/Samples/Stripping.antt =====
-- Stripping: "and the book" gives up its conjunction and its article.
use wird.Prelude.{◌≡◌, ◌↔◌, refl, some, [], ◌∷◌, true, Has, nat_eq, list_eq}
use wird.Prelude.Sort.{sort}
use wird.Text.{Word}
use wird.Text.Letters.{alef, beh, teh, kaf, lam, waw, noon}
use wird.Root.Strip.{
  walk, strip_affixes, ranked, distinct_stems, slice, span_leb, ends_in_unpeelable_suffix,
}
use wird.Root.Strip.Spec.{Peeled}
use wird.Root.Strip.Ends.{walk_ends}
use wird.Root.Strip.Stems.{stems, stems_exact}

abbrev and_the_book : Word
and_the_book = waw ∷ alef ∷ lam ∷ kaf ∷ teh ∷ beh ∷ []

stems_of_and_the_book :
    strip_affixes and_the_book
    ≡ some (
        (alef ∷ lam ∷ kaf ∷ teh ∷ beh ∷ [])
        ∷ (lam ∷ kaf ∷ teh ∷ beh ∷ [])
        ∷ (kaf ∷ teh ∷ beh ∷ [])
        ∷ [])
unfolding strip_affixes ranked walk sort distinct_stems slice span_leb
stems_of_and_the_book = refl

-- The daughters: the ending would not come off four letters.
daughters : ends_in_unpeelable_suffix (beh ∷ noon ∷ alef ∷ teh ∷ []) ≡ true
unfolding ends_in_unpeelable_suffix
daughters = refl

walk_ends_example : (walk and_the_book).queue ≡ []
walk_ends_example = walk_ends and_the_book

stems_exact_example :
    Has (stems and_the_book) (kaf ∷ teh ∷ beh ∷ []) ↔ Peeled and_the_book (kaf ∷ teh ∷ beh ∷ [])
stems_exact_example = stems_exact and_the_book (kaf ∷ teh ∷ beh ∷ [])
