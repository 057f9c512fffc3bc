-- ===== src/Senses/Score.antt =====
-- Check of server/internal/rootsense/score.go with its results, and the shipping rule. The type
-- float64 and its operations are the parameter `Floats`.
pub mod Verdicts
use Prim.Native.String.{String}
use wird.Prelude.{
  ℕ, ◌+◌, ◌-◌, Bool, true, false, not, ◌&&◌, ◌||◌, List, [], ◌∷◌, ◌++◌, Option, none, some, length,
  keep, any, contains, nat_beq, ltb, leb, ◌==◌, nat_eq, list_eq, if◌then◌else◌,
}
use wird.Prelude.Map.{Map}
use wird.Prelude.Sort.{sort}
use wird.Text.{Word, is_empty, word_leb, trim_space}
use wird.Senses.Stem.{tokens}
use wird.Senses.Corpus.{Support, Root, Index, add, add_all, roots_using, company}
use wird.Senses.Glosses.{SlotResult, Tested, Tally, no_tally, explained, is_nil, slots_loop}
use wird.Senses.Clauses.{
  Ungrounded, Clause, no_ungrounded, split_clauses, clauses_of, spread, leads_of, all_ungrounded,
}

-- What the code asks of float64: the conversion of an int, `+`, `*`, `/`, `<` and `<=`.
pub record Floats (F : Type 0) : Type 0 where
  pub of_int : ℕ → F
  pub plus : F → F → F
  pub times : F → F → F
  pub over : F → F → F
  pub less : F → F → Bool
  pub at_most : F → F → Bool

pub record Result (F : Type 0) : Type 0 where
  pub root : Word
  pub sense : Word
  pub slots : List SlotResult
  pub slots_hit : ℕ
  pub recall : F
  pub precision : F
  pub score : F
  pub unmatched : List Word
  pub coverage : F
  pub tested : ℕ
  pub support : List Support
  pub clauses : List Clause
  pub ungrounded : List Ungrounded
  pub dispersion : ℕ
  pub branch : F
  pub branch_stem : Word
  pub branch_n : ℕ
  pub leads : Bool

pub record Bar (F : Type 0) : Type 0 where
  pub score : F
  pub coverage : F
  pub dispersion : ℕ
  pub branch : F

pub data Verdict : Type 0 where
  cannot_verify verified_sense not_borne_out minority_branch unattested_clause unnamed_branch
        leads_with_minority :
      Verdict

-- The loop on `miss`: the most occurrences, and of equal counts the first word.
unfoldable pub heaviest : Map Word ℕ → Word × ℕ → Word × ℕ
heaviest [] best = best
heaviest ((w, n) ∷ miss) (stem, most) =
    heaviest miss
      (if ltb most n || (nat_beq n most && not (word_leb stem w)) then (w, n) else (stem, most))

module _ {F : Type 0} (fl : Floats F) where
  abbrev pub zero_float : F
  zero_float = fl.of_int 0

  unfoldable pub recall_of : SlotResult → F
  recall_of s =
      if nat_beq s.total 0 then zero_float else fl.over (fl.of_int s.agreed) (fl.of_int s.total)

  unfoldable pub sum_recalls : F → List SlotResult → F
  sum_recalls sum [] = sum
  sum_recalls sum (s ∷ slots) = sum_recalls (fl.plus sum (recall_of s)) slots

  abbrev pub hits : List SlotResult → ℕ
  hits [] = 0
  hits (s ∷ slots) = let rest = hits slots in if ltb 0 s.agreed then rest + 1 else rest

  abbrev pub empty_result : Word → Word → Result F
  empty_result letters sense = record {
    root = letters;
    sense = sense;
    slots = [];
    slots_hit = 0;
    recall = zero_float;
    precision = zero_float;
    score = zero_float;
    unmatched = [];
    coverage = zero_float;
    tested = 0;
    support = [];
    clauses = [];
    ungrounded = [];
    dispersion = 0;
    branch = zero_float;
    branch_stem = [];
    branch_n = 0;
    leads = false;
  }

  -- The harmonic mean.
  unfoldable pub score_of : F → F → F
  score_of recall precision =
      if fl.less zero_float (fl.plus recall precision)
      then fl.over (fl.times (fl.times (fl.of_int 2) recall) precision) (fl.plus recall precision)
      else zero_float

  abbrev pub share : ℕ → ℕ → F
  share n tested = if ltb 0 tested then fl.over (fl.of_int n) (fl.of_int tested) else zero_float

  -- From the end of the loop on the slots.
  unfoldable pub scored :
      (Word → Word) → Root → Word → List Word → List SlotResult × Tally → Result F
  scored to_lower root sense stems ([], t) = record (empty_result root.letters sense) {
    tested = t.occurrences;
    support = t.support;
  }
  scored to_lower root sense stems (s ∷ slots, t) =
      let distinct = add_all [] stems in
      let unmatched = sort word_leb (keep (λ w. not (contains t.used w)) distinct) in
      let recall = fl.over (sum_recalls zero_float (s ∷ slots)) (fl.of_int (length (s ∷ slots))) in
      let precision =
        fl.over (fl.of_int (length distinct - length unmatched)) (fl.of_int (length distinct)) in
      let worst : Word × ℕ = if ltb 0 t.occurrences then heaviest t.miss ([], 0) else ([], 0) in
      let clauses = clauses_of to_lower root.ix t [] (split_clauses sense) in
      record {
        root = root.letters;
        sense = sense;
        slots = s ∷ slots;
        slots_hit = hits (s ∷ slots);
        recall = recall;
        precision = precision;
        score = score_of recall precision;
        unmatched = unmatched;
        coverage = share t.covered t.occurrences;
        tested = t.occurrences;
        support = t.support;
        clauses = clauses;
        ungrounded = all_ungrounded clauses;
        dispersion = spread no_ungrounded (all_ungrounded clauses);
        branch = share worst.1 t.occurrences;
        branch_stem = worst.0;
        branch_n = worst.1;
        leads = leads_of clauses;
      }

  unfoldable pub check : (Word → Word) → Option Root → Word → Result F
  check to_lower none sense = empty_result [] sense
  check to_lower (some root) sense =
      let stems = tokens to_lower sense in
      if is_nil stems
      then empty_result root.letters sense
      else scored to_lower root sense stems (slots_loop to_lower stems root.slots ([], no_tally))

  abbrev pub borne_out : Result F → Bar F → Bool
  borne_out r bar = leb 2 r.slots_hit && fl.at_most bar.score r.score

  unfoldable pub verified : Result F → Bar F → Bool
  verified r bar =
      leb 2 r.slots_hit
      && (fl.at_most bar.score r.score
          && (fl.less bar.coverage r.coverage
              && (leb bar.dispersion r.dispersion && (fl.at_most r.branch bar.branch && r.leads))))

  unfoldable pub verdict : Result F → Bar F → Verdict
  verdict r bar =
      if ltb (length r.slots) 2
      then cannot_verify
      else if verified r bar
      then verified_sense
      else if fl.less r.score bar.score
      then not_borne_out
      else if fl.at_most r.coverage bar.coverage
      then minority_branch
      else if ltb r.dispersion bar.dispersion
      then unattested_clause
      else if fl.less bar.branch r.branch
      then unnamed_branch
      else leads_with_minority
