-- ===== src/Text/Order.antt =====
-- The order of texts is total, and equal texts are the only ones each before the other.
use wird.Prelude.{◌≡◌, refl, true, ◌⊎◌, inl, inr, [], ◌∷◌, arith}
use wird.Text.{Word, word_leb}

pub word_leb-total : (v w : Word) → (word_leb v w ≡ true) ⊎ (word_leb w v ≡ true)
unfolding word_leb
word_leb-total [] w = inl refl
word_leb-total (a ∷ v) [] = inr refl
word_leb-total (a ∷ v) (b ∷ w) = ground (arith, word_leb-total v w)

pub word_leb_trans :
    (u v w : Word) → word_leb u v ≡ true → word_leb v w ≡ true → word_leb u w ≡ true
unfolding word_leb
word_leb_trans [] v w h k = refl
word_leb_trans (a ∷ u) [] w h k = cc
word_leb_trans (a ∷ u) (b ∷ v) [] h k = cc
word_leb_trans (a ∷ u) (b ∷ v) (c ∷ w) h k = ground (arith, word_leb_trans u v w)

pub word_leb-antisym : (v w : Word) → word_leb v w ≡ true → word_leb w v ≡ true → v ≡ w
unfolding word_leb
word_leb-antisym [] [] h k = refl
word_leb-antisym [] (b ∷ w) h k = cc
word_leb-antisym (a ∷ v) [] h k = cc
word_leb-antisym (a ∷ v) (b ∷ w) h k = ground (arith, word_leb-antisym v w)
