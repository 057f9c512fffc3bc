-- ===== src/Etl/Glosses.antt =====
-- server/cmd/etl/glosses_fr.go: the cards of the French pages, and pinFrenchGlosses, which gives each
-- word the French of its card.
pub mod Pinned
use wird.Prelude.{
  ℕ, zero, suc, ◌+◌, ◌*◌, Bool, true, false, not, ◌&&◌, ◌||◌, Option, none, some, List, [], ◌∷◌,
  ◌++◌, map, any, keep, contains, length, get_elem?, between, nat_beq, leb, nat_eq, list_eq,
  if◌then◌else◌,
}
use wird.Prelude.Map.{Map, get, put}
use wird.Text.{Word, is_empty, trim_space}
use wird.Text.Ascii.{ascii}
use wird.Text.Strings.{split_on}
use wird.Text.Decimal.{magnitude}
use wird.Etl.Rows.{ayah_id}
use wird.Etl.Corpus.{CorpusWord}
use wird.Etl.Align.{align_lcs}

-- One word of a page: tldWord.
pub record Card : Type 0 where
  pub arabic : Word
  pub french : Word

-- What the pages are read with: the two patterns and html.UnescapeString, which make the text of a
-- page with a separator where its tags were, strings.ToLower, the decomposition of x/text, and the
-- category Lo of unicode.
pub record PageReader : Type 0 where
  pub text_of : Word → Word
  pub to_lower : Word → Word
  pub decomposed : Word → Word
  pub is_letter : ℕ → Bool

abbrev pub tld_labels : List Word
tld_labels =
    ascii "nom"
    ∷ ascii "nom propre"
    ∷ ascii "nom / pronom"
    ∷ ascii "pronom"
    ∷ ascii "adjectif"
    ∷ ascii "verbe"
    ∷ ascii "particule"
    ∷ ascii "particule (harf)"
    ∷ ascii "particle"
    ∷ []

-- \d{1,3}
abbrev pub short_number : Word → Bool
short_number w =
    leb 1 (length w) && leb (length w) 3 && not (any (λ c. not (between 0x30 0x39 c)) w)

abbrev pub both_numbers : Option ℕ → Option ℕ → Option ℕ
both_numbers (some surah) (some ayah) = some (ayah_id surah ayah)
both_numbers none ayah = none
both_numbers (some surah) none = none

abbrev pub ref_of : List Word → Option ℕ
ref_of (s ∷ a ∷ []) =
    if short_number s && short_number a then both_numbers (magnitude s) (magnitude a) else none
ref_of pieces = none

-- The id of the aya that a cell names by the pattern tldRef.
unfoldable pub tld_ref : Word → Option ℕ
tld_ref cell = ref_of (split_on 0x3A cell)

-- The pattern tldArabic
abbrev pub has_arabic : Word → Bool
has_arabic w = any (between 0x0600 0x06FF) w

abbrev pub cards_at : Option (List Card) → List Card
cards_at none = []
cards_at (some cards) = cards

abbrev pub Pages : Type 0
Pages = Map ℕ (List Card)

abbrev pub card_of : Word → Word → Card
card_of arabic french = record { arabic = arabic; french = french }

-- The card that a label opens, from the cells after it.
abbrev pub opened : List Word → Option Card
opened (arabic ∷ french ∷ cells) = if has_arabic arabic then some (card_of arabic french) else none
opened cells = none

abbrev pub with_card : ℕ → Option Card → Pages → Pages
with_card aid none out = out
with_card aid (some card) out = put out aid (cards_at (get out aid) ++ card ∷ [])

abbrev pub skipped_by : Option Card → ℕ
skipped_by none = 0
skipped_by (some card) = 3

abbrev pub is_some : Option (List Card) → Bool
is_some none = false
is_some (some cards) = true

-- The first page to carry an aya keeps it.
unfoldable pub merge_page : Pages → Pages → Pages
merge_page out [] = out
merge_page out ((aid, cards) ∷ page) =
    merge_page (if is_some (get out aid) then out else put out aid cards) page

abbrev pub french_in : Option Card → Word
french_in none = []
french_in (some card) = trim_space card.french

-- The French of a partner, if it has any.
abbrev pub french_of : List Card → Option ℕ → Word
french_of cards none = []
french_of cards (some j) = french_in (get_elem? cards j)

abbrev pub with_french_of : CorpusWord → Word → CorpusWord
with_french_of w french = if is_empty french then w else record w { gloss_fr = french }

-- The inner loop, on the words of an aya and their partners, with the count of those left over.
unfoldable pub pin_loop : List Card → List CorpusWord → List (Option ℕ) → List CorpusWord × ℕ
pin_loop cards [] out = ([], 0)
pin_loop cards (w ∷ words) [] = (w ∷ words, 0)
pin_loop cards (w ∷ words) (o ∷ out) =
    let rest = pin_loop cards words out in
    let french = french_of cards o in
    (with_french_of w french ∷ rest.0, if is_empty french then rest.1 + 1 else rest.1)

-- The words from the start that are of an aya, and those after.
unfoldable pub split_ayah : ℕ → List CorpusWord → List CorpusWord × List CorpusWord
split_ayah aid [] = ([], [])
split_ayah aid (w ∷ words) =
    let rest = split_ayah aid words in
    if nat_beq w.ayah aid then (w ∷ rest.0, rest.1) else ([], w ∷ words)

module _ (r : PageReader) where
  abbrev pub is_label : Word → Bool
  is_label cell = contains tld_labels (r.to_lower cell)

  abbrev pub card_at : ℕ → Word → List Word → Option Card
  card_at aid cell cells = if not (nat_beq aid 0) && is_label cell then opened cells else none

  -- The loop on the cells, of which the first `skip` are passed over.
  unfoldable pub cells_loop : ℕ → ℕ → List Word → Pages → Pages
  unfolding tld_ref
  cells_loop skip aid [] out = out
  cells_loop (suc skip) aid (cell ∷ cells) out = cells_loop skip aid cells out
  cells_loop zero aid (cell ∷ cells) out = elim (tld_ref cell) [
    | some named ↦ cells_loop zero named cells out
    | none ↦
        cells_loop (skipped_by (card_at aid cell cells)) aid cells
          (with_card aid (card_at aid cell cells) out)
  ]

  unfoldable pub parse_tld_page : Word → Pages
  unfolding cells_loop
  parse_tld_page page =
      let cells = keep (λ c. not (is_empty c)) (map trim_space (split_on 0x1F (r.text_of page))) in
      cells_loop 0 0 cells []

  unfoldable pub pages_loop : Pages → List Word → Pages
  unfolding merge_page parse_tld_page
  pages_loop out [] = out
  pages_loop out (page ∷ pages) = pages_loop (merge_page out (parse_tld_page page)) pages

  abbrev pub letters : Word → Word
  letters w = keep r.is_letter (r.decomposed w)

  unfoldable pub pin_ayah : List Card → List CorpusWord → List CorpusWord × ℕ
  unfolding pin_loop
  pin_ayah cards words = pin_loop cards words (
      align_lcs (map (λ (w : CorpusWord). letters w.text_ar) words)
        (map (λ (c : Card). letters c.arabic) cards))

  -- The outer loop. Each round takes one word at least, so there are no more rounds than words.
  unfoldable pub ayahs_loop : ℕ → List CorpusWord → Pages → List CorpusWord × ℕ
  unfolding pin_ayah split_ayah
  ayahs_loop zero words pages = (words, 0)
  ayahs_loop (suc fuel) [] pages = ([], 0)
  ayahs_loop (suc fuel) (w ∷ words) pages =
      let parts = split_ayah w.ayah words in
      let these = pin_ayah (cards_at (get pages w.ayah)) (w ∷ parts.0) in
      let rest = ayahs_loop fuel parts.1 pages in (these.0 ++ rest.0, these.1 + rest.1)

  unfoldable pub pin_french_glosses : List CorpusWord → Pages → List CorpusWord × ℕ
  unfolding ayahs_loop
  pin_french_glosses words pages = ayahs_loop (length words) words pages
