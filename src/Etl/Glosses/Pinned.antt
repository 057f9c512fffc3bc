-- ===== src/Etl/Glosses/Pinned.antt =====
-- Whose French a word is given.
use wird.Prelude.{
  ◌≡◌, refl, sym, ap, subst, keep, ◌∙◌, ℕ, zero, suc, ◌+◌, ◌≤◌, ◌⊎◌, inl, inr, true, false, Option,
  none, some, List, [], ◌∷◌, ◌++◌, map, length, get_elem?, nat_beq, nat_eq, list_eq, All,
  Bool-cases, arith,
}
use wird.Prelude.Map.{get}
use wird.Text.{Word, is_empty, trim_space}
use wird.Etl.Corpus.{CorpusWord}
use wird.Etl.Align.{align_lcs}
use wird.Etl.Align.Best.{IsPairing, align_lcs_best}
use wird.Etl.Glosses.{
  Card, Pages, PageReader, cards_at, letters, french_of, with_french_of, pin_loop, pin_ayah,
  split_ayah, ayahs_loop, pin_french_glosses,
}

-- The word is left as it was, or has the French of a card with its letters.
abbrev pub IsPinned : (Word → Word) → List Card → CorpusWord → CorpusWord → Type 0
IsPinned letters cards w w' =
    (w' ≡ w)
    ⊎ ((j : ℕ) × (card : Card) × (get_elem? cards j ≡ some card)
        × (letters card.arabic ≡ letters w.text_ar)
        × (is_empty (trim_space card.french) ≡ false)
        × (w' ≡ record w { gloss_fr = trim_space card.french }))

-- Each word in its place, by the cards of its aya.
abbrev pub ArePinned : (Word → Word) → Pages → List CorpusWord → List CorpusWord → Type 0
ArePinned letters pages [] [] = Unit {0}
ArePinned letters pages [] (w' ∷ rest) = true ≡ false
ArePinned letters pages (w ∷ words) [] = true ≡ false
ArePinned letters pages (w ∷ words) (w' ∷ rest) =
    IsPinned letters (cards_at (get pages w.ayah)) w w' × ArePinned letters pages words rest

ArePinned-append :
    (f : Word → Word) (pages : Pages) (a a' b b' : List CorpusWord)
    → ArePinned f pages a a'
    → ArePinned f pages b b'
    → ArePinned f pages (a ++ b) (a' ++ b')
ArePinned-append f pages [] [] b b' h k = k
ArePinned-append f pages [] (w' ∷ a') b b' h k = absurd cc
ArePinned-append f pages (w ∷ a) [] b b' h k = absurd cc
ArePinned-append f pages (w ∷ a) (w' ∷ a') b b' h k =
    (h.0, ArePinned-append f pages a a' b b' h.1 k)

ArePinned-refl : (f : Word → Word) (pages : Pages) (a : List CorpusWord) → ArePinned f pages a a
ArePinned-refl f pages [] = tt
ArePinned-refl f pages (w ∷ a) = (inl refl, ArePinned-refl f pages a)

card_behind :
    (f : Word → Word) (cards : List Card) (j : ℕ) (x : Word)
    → get_elem? (map (λ (c : Card). f c.arabic) cards) j ≡ some x
    → (card : Card) × (get_elem? cards j ≡ some card) × (f card.arabic ≡ x)
card_behind f [] j x h = cc
card_behind f (c ∷ cards) zero x h = (c, refl, cc)
card_behind f (c ∷ cards) (suc j) x h = card_behind f cards j x h

IsPinned-french :
    (f : Word → Word) (cards : List Card) (w : CorpusWord) (j low : ℕ)
    → get_elem? (map (λ (c : Card). f c.arabic) cards) j ≡ some (f w.text_ar)
    → IsPinned f cards w (with_french_of w (french_of cards (some j)))
IsPinned-french f cards w j low h =
    let (card, there, same) = card_behind f cards j (f w.text_ar) h in
    elim (Bool-cases (is_empty (trim_space card.french))) [
      | inl e ↦ inl (rw (there, e) refl)
      | inr e ↦ inr (j, card, there, same, e, rw (there, e) refl)
    ]

pin_loop-ArePinned :
    (f : Word → Word) (pages : Pages) (aid low : ℕ) (words : List CorpusWord)
    (out : List (Option ℕ))
    → All (λ (w : CorpusWord). w.ayah ≡ aid) words
    → IsPairing
        (map (λ (c : Card). f c.arabic) (cards_at (get pages aid)))
        low
        (map (λ (w : CorpusWord). f w.text_ar) words)
        out
    → ArePinned f pages words (pin_loop (cards_at (get pages aid)) words out).0
unfolding pin_loop
pin_loop-ArePinned f pages aid low [] [] own p = tt
pin_loop-ArePinned f pages aid low [] (o ∷ out) own p = tt
pin_loop-ArePinned f pages aid low (w ∷ words) [] own p = absurd cc
pin_loop-ArePinned f pages aid low (w ∷ words) (none ∷ out) own p =
    (inl refl, pin_loop-ArePinned f pages aid low words out own.1 p)
pin_loop-ArePinned f pages aid low (w ∷ words) (some j ∷ out) own p = (
  subst
      (λ a.
        IsPinned f (cards_at (get pages a)) w
          (with_french_of w (french_of (cards_at (get pages aid)) (some j))))
      (sym own.0) (IsPinned-french f (cards_at (get pages aid)) w j low p.1),
  pin_loop-ArePinned f pages aid (suc j) words out own.1 p.2,
)

split_ayah-whole :
    (aid : ℕ) (words : List CorpusWord)
    → ((split_ayah aid words).0 ++ (split_ayah aid words).1 ≡ words)
      × All (λ (w : CorpusWord). w.ayah ≡ aid) (split_ayah aid words).0
      × (length (split_ayah aid words).1 ≤ length words)
unfolding split_ayah
split_ayah-whole aid [] = (refl, tt, omega arith)
split_ayah-whole aid (w ∷ words) = elim (Bool-cases (nat_beq w.ayah aid)) [
  | inl e ↦
      let (whole, own, fewer) = split_ayah-whole aid words in
      rw e (ap (λ l. w ∷ l) whole, (ground (arith, e), own), omega (arith, fewer))
  | inr e ↦ rw e (refl, tt, omega arith)
]

abbrev pub bare_count : List CorpusWord → ℕ
bare_count words = length (keep (λ (w : CorpusWord). is_empty w.gloss_fr) words)

bare_count-append : (a b : List CorpusWord) → bare_count (a ++ b) ≡ bare_count a + bare_count b
bare_count-append [] b = omega arith
bare_count-append (w ∷ a) b = ground (arith, bare_count-append a b)

bare_count-with :
    (w : CorpusWord) (french : Word)
    → is_empty w.gloss_fr ≡ true
    → is_empty (with_french_of w french).gloss_fr ≡ is_empty french
bare_count-with w french h = elim (Bool-cases (is_empty french)) [ inl e ↦ rw e h | inr e ↦ rw e e ]

pin_loop-bare_count :
    (cards : List Card) (words : List CorpusWord) (out : List (Option ℕ))
    → All (λ (w : CorpusWord). is_empty w.gloss_fr ≡ true) words
    → length out ≡ length words
    → (pin_loop cards words out).1 ≡ bare_count (pin_loop cards words out).0
unfolding pin_loop
pin_loop-bare_count cards [] out h k = refl
pin_loop-bare_count cards (w ∷ words) [] h k = absurd (omega (arith, k))
pin_loop-bare_count cards (w ∷ words) (o ∷ out) h k = ground (
  arith,
  bare_count-with w (french_of cards o) h.0,
  pin_loop-bare_count cards words out h.1 (omega (arith, k)),
)

paired_length :
    (b : List Word) (low : ℕ) (a : List Word) (out : List (Option ℕ))
    → IsPairing b low a out
    → length out ≡ length a
paired_length b low [] [] p = refl
paired_length b low [] (o ∷ out) p = absurd cc
paired_length b low (x ∷ a) [] p = absurd cc
paired_length b low (x ∷ a) (none ∷ out) p = ap suc (paired_length b low a out p)
paired_length b low (x ∷ a) (some j ∷ out) p = ap suc (paired_length b (suc j) a out p.2)

length-map : {A B : Type 0} (f : A → B) (xs : List A) → length (map f xs) ≡ length xs
length-map f [] = refl
length-map f (x ∷ xs) = ap suc (length-map f xs)

split_ayah-bare :
    (aid : ℕ) (words : List CorpusWord)
    → All (λ (w : CorpusWord). is_empty w.gloss_fr ≡ true) words
    → All (λ (w : CorpusWord). is_empty w.gloss_fr ≡ true) (split_ayah aid words).0
      × All (λ (w : CorpusWord). is_empty w.gloss_fr ≡ true) (split_ayah aid words).1
unfolding split_ayah
split_ayah-bare aid [] h = (tt, tt)
split_ayah-bare aid (w ∷ words) h = elim (Bool-cases (nat_beq w.ayah aid)) [
  | inl e ↦ let (these, those) = split_ayah-bare aid words h.1 in rw e ((h.0, these), those)
  | inr e ↦ rw e (tt, h)
]

module _ (r : PageReader) where
  pub ayahs_loop-ArePinned :
      (fuel : ℕ) (words : List CorpusWord) (pages : Pages)
      → ArePinned (letters r) pages words (ayahs_loop r fuel words pages).0
  unfolding ayahs_loop pin_ayah
  ayahs_loop-ArePinned zero words pages = ArePinned-refl (letters r) pages words
  ayahs_loop-ArePinned (suc fuel) [] pages = tt
  ayahs_loop-ArePinned (suc fuel) (w ∷ words) pages =
      let parts = split_ayah w.ayah words in
      let (whole, own, fewer) = split_ayah-whole w.ayah words in
      let cards = cards_at (get pages w.ayah) in
      let best =
        align_lcs_best (map (λ (v : CorpusWord). letters r v.text_ar) (w ∷ parts.0))
          (map (λ (c : Card). letters r c.arabic) cards) in
      let these =
        pin_loop-ArePinned (letters r) pages w.ayah 0 (w ∷ parts.0) _ (refl, own) best.0 in
      subst (λ l. ArePinned (letters r) pages (w ∷ l) (ayahs_loop r (suc fuel) (w ∷ words) pages).0)
        whole
        (ArePinned-append (letters r) pages (w ∷ parts.0) _ parts.1 _ these
          (ayahs_loop-ArePinned fuel parts.1 pages))

  ayahs_loop-bare_count :
      (fuel : ℕ) (words : List CorpusWord) (pages : Pages)
      → length words ≤ fuel
      → All (λ (w : CorpusWord). is_empty w.gloss_fr ≡ true) words
      → (ayahs_loop r fuel words pages).1 ≡ bare_count (ayahs_loop r fuel words pages).0
  unfolding ayahs_loop pin_ayah
  ayahs_loop-bare_count zero [] pages h bare = refl
  ayahs_loop-bare_count zero (w ∷ words) pages h bare = absurd (omega (arith, h))
  ayahs_loop-bare_count (suc fuel) [] pages h bare = refl
  ayahs_loop-bare_count (suc fuel) (w ∷ words) pages h bare =
      let parts = split_ayah w.ayah words in
      let (whole, own, fewer) = split_ayah-whole w.ayah words in
      let (these, those) = split_ayah-bare w.ayah words bare.1 in
      let cards = cards_at (get pages w.ayah) in
      let ours = map (λ (v : CorpusWord). letters r v.text_ar) (w ∷ parts.0) in
      let theirs = map (λ (c : Card). letters r c.arabic) cards in
      let out = align_lcs ours theirs in
      let long =
        paired_length theirs 0 ours out (align_lcs_best ours theirs).0
        ∙ length-map (λ (v : CorpusWord). letters r v.text_ar) (w ∷ parts.0) in
      let here = pin_loop-bare_count cards (w ∷ parts.0) out (bare.0, these) long in
      let later = ayahs_loop-bare_count fuel parts.1 pages (omega (arith, fewer, h)) those in
      let sum =
        bare_count-append (pin_loop cards (w ∷ parts.0) out).0
          (ayahs_loop r fuel parts.1 pages).0 in
      omega (arith, here, later, sum)

  -- Where no word has French before, each word stays in its place and is left as it was, or has the
  -- French of a card of its aya with its letters; and the count is of the words that have none after.
  pub pin_french_glosses_pins :
      (words : List CorpusWord) (pages : Pages)
      → All (λ (w : CorpusWord). is_empty w.gloss_fr ≡ true) words
      → ArePinned (letters r) pages words (pin_french_glosses r words pages).0
        × ((pin_french_glosses r words pages).1 ≡ bare_count (pin_french_glosses r words pages).0)
  unfolding pin_french_glosses
  pin_french_glosses_pins words pages bare = (
    ayahs_loop-ArePinned (length words) words pages,
    ayahs_loop-bare_count (length words) words pages (omega arith) bare,
  )
