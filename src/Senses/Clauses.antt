-- ===== src/Senses/Clauses.antt =====
-- The clauses of a sense in Check of server/internal/rootsense/score.go: what each adds, and the words
-- in it that the root does not show.
use wird.Prelude.{
  ℕ, Bool, true, not, ◌&&◌, ◌||◌, List, [], ◌∷◌, ◌++◌, Option, any, contains, nat_beq, ltb, nat_eq,
  list_eq, if◌then◌else◌,
}
use wird.Text.{Word, is_empty, trim_space}
use wird.Senses.Stem.{tokens}
use wird.Senses.Corpus.{Index, add, roots_using, company}
use wird.Senses.Glosses.{Tally, explained}

pub record Ungrounded : Type 0 where
  pub stem : Word
  pub roots : ℕ
  pub measured : Bool

pub record Clause : Type 0 where
  pub text : Word
  pub covered : ℕ
  pub ungrounded : List Ungrounded

-- 1 << 20
abbrev pub no_ungrounded : ℕ
no_ungrounded = 1048576

-- strings.Split on a semicolon
unfoldable pub split_clauses : Word → List Word
split_clauses [] = [] ∷ []
split_clauses (c ∷ text) = elim (split_clauses text) [
  | [] ↦ (c ∷ []) ∷ []
  | part ∷ parts ↦ if nat_beq c 0x3B then [] ∷ part ∷ parts else (c ∷ part) ∷ parts
]

-- What a clause says that no earlier one did, and what is claimed after it.
unfoldable pub claim : List Word → List Word → List Word → List Word × List Word
claim claimed adds [] = (claimed, adds)
claim claimed adds (t ∷ stems) =
    claim (add claimed t) (if contains claimed t then adds else adds ++ t ∷ []) stems

module _ (ix : Option Index) (used : List Word) (grounded : Bool) where
  -- The loop on the words of a clause that the root does not show.
  unfoldable pub ungrounded_of : List Word → List Word → List Ungrounded
  ungrounded_of seen [] = []
  ungrounded_of seen (t ∷ stems) =
      let here : Ungrounded = record {
        stem = t;
        roots = roots_using ix t;
        measured = grounded || not (company ix t used);
      } in
      let skipped = ungrounded_of seen stems in
      let kept = ungrounded_of (add seen t) stems in
      if contains seen t || contains used t then skipped else here ∷ kept

unfoldable pub spread : ℕ → List Ungrounded → ℕ
spread dispersion [] = dispersion
spread dispersion (u ∷ us) =
    spread (if u.measured && ltb u.roots dispersion then u.roots else dispersion) us

-- Without a first clause there is none to compare with.
abbrev pub leads_of : List Clause → Bool
leads_of [] = true
leads_of (c ∷ clauses) = not (any (λ (d : Clause). ltb c.covered d.covered) (c ∷ clauses))

module _ (to_lower : Word → Word) (ix : Option Index) (t : Tally) where
  abbrev pub clause_of : Word → List Word → List Word → Clause
  clause_of text stems adds = record {
    text = text;
    covered = explained t.answerable adds;
    ungrounded = ungrounded_of ix t.used (any (contains t.used) stems) [] stems;
  }

  -- The loop on the clauses of a sense, from what is claimed before.
  unfoldable pub clauses_of : List Word → List Word → List Clause
  clauses_of claimed [] = []
  clauses_of claimed (part ∷ parts) =
      let text = trim_space part in
      let stems = tokens to_lower text in
      let said = claim claimed [] stems in
      let skipped = clauses_of claimed parts in
      let later = clauses_of said.0 parts in
      if is_empty text then skipped else clause_of text stems said.1 ∷ later

unfoldable pub all_ungrounded : List Clause → List Ungrounded
all_ungrounded [] = []
all_ungrounded (c ∷ clauses) = c.ungrounded ++ all_ungrounded clauses
