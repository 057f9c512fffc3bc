-- ===== src/Samples/Lexicon.antt =====
-- A division of two keys, and the root that it is filed under.
use wird.Prelude.{◌≡◌, refl, true, false, List, [], ◌∷◌, some, nat_eq, list_eq}
use wird.Prelude.Map.{get, put}
use wird.Text.{Word, trim_space, trim_left, trim_right, is_space}
use wird.Text.Ascii.{ascii}
use wird.Senses.Stem.{has_prefix}
use wird.Lane.Tables.{two, one}
use wird.Lane.Articles.{
  Division, fold, letters_of, arabic, articles, append_prose, keys_loop, articles_loop, exact, look,
}

abbrev ktb : Word
ktb = 0x0643 ∷ 0x062A ∷ 0x0628 ∷ []

abbrev divisions : List Division
divisions =
    record {
      is_root = true;
      n = some (ascii "ktb" ∷ ascii "Quasi x" ∷ []);
      prose = ascii "he wrote";
      is_last = false;
    }
    ∷ []

ktb_spelt : arabic (ascii "ktb") ≡ ktb
unfolding arabic letters_of one two get
ktb_spelt = refl

look-ktb : look (articles divisions) ktb ≡ some (ktb, exact)
unfolding look fold arabic letters_of one two get put append_prose keys_loop articles_loop
    has_prefix trim_space trim_left trim_right is_space
look-ktb = refl
