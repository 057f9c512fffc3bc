-- ===== src/Store/Progress.antt =====
-- Progress and juzOf of server/internal/store/store.go.
pub mod Juz
use wird.Prelude.{
  ℕ, zero, suc, ◌+◌, ◌-◌, ◌<◌, Bool, true, false, Option, none, some, List, [], ◌∷◌, keep, length,
  ltb, leb, map, if◌then◌else◌,
}
use Prim.Native.String.{String}
use wird.Prelude.Texts.{string_eq}
use wird.Prelude.{◌==◌}
use wird.Prelude.Attempt.{Attempt, done, fail, ◌>>=◌, ◌>>◌}
use wird.Sync.Tables.{Tables, Understood, SetRow, Prayer, DbError}

-- The first aya of each juz.
abbrev pub juz_starts : List ℕ
juz_starts =
    1001 ∷ 2142 ∷ 2253 ∷ 3092 ∷ 4024 ∷ 4148 ∷ 5082 ∷ 6111 ∷ 7088 ∷ 8041 ∷ 9093 ∷ 11006 ∷ 12053
    ∷ 15001 ∷ 17001 ∷ 18075 ∷ 21001 ∷ 23001 ∷ 25021 ∷ 27056 ∷ 29046 ∷ 33031 ∷ 36028 ∷ 39032 ∷ 41047
    ∷ 46001 ∷ 51031 ∷ 58001 ∷ 67001 ∷ 78001 ∷ []

-- The loop on the starts from index `i` on.
unfoldable pub juz_loop : ℕ → ℕ → ℕ → List ℕ → ℕ
juz_loop ayah juz i [] = juz
juz_loop ayah juz i (start ∷ starts) =
    juz_loop ayah (if leb start ayah then suc i else juz) (suc i) starts

abbrev pub later_starts : List ℕ → List ℕ
later_starts [] = []
later_starts (start ∷ starts) = starts

unfoldable pub juz_of : ℕ → ℕ
unfolding juz_loop
juz_of ayah = juz_loop ayah 1 1 (later_starts juz_starts)

abbrev pub onto_counts : ℕ → Option (List ℕ) → Option (List ℕ)
onto_counts n none = none
onto_counts n (some rest) = some (n ∷ rest)

-- counts[i]++, which is a panic out of range.
unfoldable pub bump : ℕ → List ℕ → Option (List ℕ)
bump i [] = none
bump zero (n ∷ counts) = some (suc n ∷ counts)
bump (suc i) (n ∷ counts) = onto_counts n (bump i counts)

-- The figures that are shown. The two quotients are a numerator and a denominator.
pub record Progress : Type 0 where
  pub understood : ℕ
  pub sets : ℕ
  pub prayers : ℕ
  pub prayers_per_set : Option (ℕ × ℕ)
  pub percent : ℕ × ℕ
  pub roots_known : List String
  pub juz_understood : List ℕ

-- The variables of the loop on the rows: how many there are, and how many in each juz.
abbrev pub Counts : Type 0
Counts = ℕ × List ℕ

abbrev pub zeroes : List ℕ → List ℕ
zeroes [] = []
zeroes (s ∷ starts) = 0 ∷ zeroes starts

abbrev pub no_counts : Counts
no_counts = (0, zeroes juz_starts)

-- The loop on the rows of ayah_understood.
unfoldable pub understood_loop : Counts → List ℕ → Option Counts
unfolding juz_of bump
understood_loop c [] = some c
understood_loop c (ayah ∷ ayahs) = elim (bump (juz_of ayah - 1) c.1) [
  | none ↦ none
  | some juz ↦ understood_loop (c.0 + 1, juz) ayahs
]

abbrev pub understood_by : String → List Understood → List ℕ
understood_by user rows =
    map (λ (u : Understood). u.ayah_id) (keep (λ (u : Understood). u.user == user) rows)

abbrev pub sets_of : String → Tables → ℕ
sets_of user t = length (keep (λ (s : SetRow). s.user == user) t.sets)

abbrev pub prayers_of : String → Tables → ℕ
prayers_of user t = length (keep (λ (p : Prayer). p.user == user) t.prayers)

abbrev pub shown : String → Tables → List String → Counts → Progress
shown user t roots c = record {
  understood = c.0;
  sets = sets_of user t;
  prayers = prayers_of user t;
  prayers_per_set =
      if ltb 0 (sets_of user t) then some (prayers_of user t, sets_of user t) else none;
  percent = (c.0, 6236);
  roots_known = roots;
  juz_understood = c.1;
}

pub data ProgressError : Type 0 where
  unanswered : DbError → ProgressError
  out_of_range : ProgressError

abbrev pub asked : Option DbError → Attempt ProgressError (Unit {0})
asked none = done tt
asked (some e) = fail (unanswered e)

-- `out_of_range` is the panic of an index.
abbrev pub in_range : Option Counts → Attempt ProgressError Counts
in_range none = fail out_of_range
in_range (some c) = done c

-- The answers of the database, of which the roots are a list from a table of their own. It may answer
-- with an error to the first query, while its rows are read, to the counts, to the query of the roots,
-- and while those are read.
unfoldable pub progress :
    (ℕ → Option DbError) → String → Tables → List String → Attempt ProgressError Progress
unfolding understood_loop
progress fails user t roots = do
  asked (fails 0)
  c ← in_range (understood_loop no_counts (understood_by user t.understood))
  asked (fails 1)
  asked (fails 2)
  asked (fails 3)
  asked (fails 4)
  done (shown user t roots c)
