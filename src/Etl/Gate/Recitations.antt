-- ===== src/Etl/Gate/Recitations.antt =====
-- The recitations that the build keeps are ones that its gate lets through.
use wird.Prelude.{
  ◌≡◌, refl, ap, ◌∙◌, ℕ, ◌/◌, ◌≤◌, ◌<◌, true, false, Option, none, List, [], ◌∷◌, ◌++◌, map,
  contains, nat_beq, nat_eq, All, IsNodup, arith,
}
use wird.Prelude.Attempt.{done}
use wird.Prelude.Map.{Map, get, put, get-put}
use wird.Text.{Word}
use wird.Text.Decimal.{ℤ, pos}
use wird.Etl.Rows.{Segment, Recitation, Recited, Surah, ayah_id, word_id}
use wird.Etl.Rows.Steady.{IsSteady, IsWordOf}
use wird.Etl.Recite.{AyahTimings, words_of, visits, load_recitation}
use wird.Etl.Recite.Blocks.{IsRecited, load_recitation_blocks}
use wird.Etl.Gate.{segments_loop, start_at}

-- A word's id names its aya.
word_id_ayah : (ayah p : ℕ) → p < 1000 → word_id ayah p / 1000 ≡ ayah
word_id_ayah ayah p h = omega arith

-- The rows of one aya pass, and change the last start of no other.
block_passes :
    (words : List ℕ) (slug : Word) (ayah word_count : ℕ) (last : Map ℕ ℤ) (prev : ℤ)
    (rows rest : List Segment)
    → word_count < 1000
    → ((p : ℕ) → 1 ≤ p → p ≤ word_count → contains words (word_id ayah p) ≡ true)
    → start_at (get last ayah) ≡ prev
    → IsSteady prev rows
    → All (IsWordOf ayah word_count) rows
    → (last' : Map ℕ ℤ) × (segments_loop words slug last (rows ++ rest)
        ≡ segments_loop words slug last' rest)
      × ((other : ℕ) → nat_beq ayah other ≡ false → get last' other ≡ get last other)
unfolding segments_loop
block_passes words slug ayah word_count last prev [] rest few known at steady of =
    (last, refl, λ other n. refl)
block_passes words slug ayah word_count last prev (s ∷ rows) rest few known at steady of =
    let (p, named, low, high) = of.0 in
    let aya : s.word / 1000 ≡ ayah = rw named (word_id_ayah ayah p (omega arith)) in
    let there : contains words s.word ≡ true = rw named (known p low high) in
    let written = get-put last ayah ayah s.starts in
    let now : start_at (get (put last ayah s.starts) ayah) ≡ s.starts = ground (arith, written) in
    let (last', passed, others) =
      block_passes words slug ayah word_count (put last ayah s.starts) s.starts rows rest few known
        now steady.2 of.1 in
    (
      last',
      rw (aya, there, at, steady.0) passed,
      λ other n. others other n ∙ get-put last ayah other s.starts ∙ rw n refl,
    )

abbrev id_of : ℕ × ℕ → ℕ
id_of v = ayah_id v.0 v.1

untouched :
    (ayah : ℕ) (last last' : Map ℕ ℤ) (vs : List (ℕ × ℕ))
    → ((other : ℕ) → nat_beq ayah other ≡ false → get last' other ≡ get last other)
    → contains (map id_of vs) ayah ≡ false
    → All (λ v. get last (id_of v) ≡ none) vs
    → All (λ v. get last' (id_of v) ≡ none) vs
untouched ayah last last' [] same fresh none_yet = tt
untouched ayah last last' (v ∷ vs) same fresh none_yet = (
  same (id_of v) (ground (arith, fresh)) ∙ none_yet.0,
  untouched ayah last last' vs same (ground (arith, fresh)) none_yet.1,
)

-- The corpus has each word of the aya, of which there are fewer than 1000 and one at least.
abbrev pub IsKnown : List ℕ → Map ℕ ℕ → ℕ × ℕ → Type 0
IsKnown words words_per_ayah v =
    (1 ≤ words_of words_per_ayah v)
    × (words_of words_per_ayah v < 1000)
    × ((p : ℕ)
        → 1 ≤ p
        → p ≤ words_of words_per_ayah v
        → contains words (word_id (ayah_id v.0 v.1) p) ≡ true)

blocks_pass :
    (words : List ℕ) (slug : Word) (words_per_ayah : Map ℕ ℕ) (vs : List (ℕ × ℕ)) (last : Map ℕ ℤ)
    (segments : List Segment)
    → All (IsKnown words words_per_ayah) vs
    → IsNodup (map id_of vs)
    → All (λ v. get last (id_of v) ≡ none) vs
    → IsRecited (words_of words_per_ayah) vs segments
    → segments_loop words slug last segments ≡ []
unfolding segments_loop
blocks_pass words slug words_per_ayah [] last segments known apart fresh blocks = rw blocks refl
blocks_pass words slug words_per_ayah (v ∷ vs) last segments known apart fresh blocks =
    let (rows, tail, made, block, rest) = blocks in
    let (last', passed, others) =
      block_passes words slug (id_of v) (words_of words_per_ayah v) last (pos 0) rows tail known.0.1
        known.0.2 (ap start_at fresh.0) block.0 block.1 in
    rw (made, passed)
      (blocks_pass words slug words_per_ayah vs last' tail known.1 apart.1
        (untouched (id_of v) last last' vs others apart.0 fresh.1) rest)

all_fresh : (vs : List (ℕ × ℕ)) → All (λ v. get {V = ℤ} [] (id_of v) ≡ none) vs
unfolding get
all_fresh [] = tt
all_fresh (v ∷ vs) = (refl, all_fresh vs)

has_words :
    (words : List ℕ) (words_per_ayah : Map ℕ ℕ) (vs : List (ℕ × ℕ))
    → All (IsKnown words words_per_ayah) vs
    → All (λ v. 1 ≤ words_of words_per_ayah v) vs
has_words words words_per_ayah [] h = tt
has_words words words_per_ayah (v ∷ vs) h = (h.0.0, has_words words words_per_ayah vs h.1)

-- Where the ayas have different ids and the corpus has their words, which are one at least and fewer
-- than 1000 in each, a recitation that the build keeps has no segment for an unknown word and none
-- that starts before the one before it in its aya: the gate finds nothing in it.
pub loaded_passes :
    (words : List ℕ) (words_per_ayah : Map ℕ ℕ) (surahs : List Surah)
    (file : Option (List AyahTimings)) (rec : Recitation) (slug : Word) {r : Recited}
    → All (IsKnown words words_per_ayah) (visits surahs)
    → IsNodup (map (λ (v : ℕ × ℕ). ayah_id v.0 v.1) (visits surahs))
    → load_recitation file rec surahs words_per_ayah ≡ done r
    → segments_loop words slug [] r.segments ≡ []
loaded_passes words words_per_ayah surahs file rec slug {r} known apart h =
    let one = has_words words words_per_ayah (visits surahs) known in
    blocks_pass words slug words_per_ayah (visits surahs) [] r.segments known apart
      (all_fresh (visits surahs)) (load_recitation_blocks file rec surahs words_per_ayah one h).0
