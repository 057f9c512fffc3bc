-- ===== src/Root/Resolve/Spec.antt =====
-- What an answer of the resolver rests on, stated over the store alone.
use wird.Prelude.{◌≡◌, ◌≢◌, ◌⊎◌, true, false, List, [], ◌∷◌, Has, nat_eq, list_eq, ℕ, All}
use wird.Prelude.Attempt.{done, fail}
use wird.Text.{Word}
use wird.Root.Types.{
  Method, Root, Result, Entry, RootRecord, Candidate, NoRootError, lexicon, normalized, lemma,
  stripped, pattern_match, shared,
}
use wird.Root.Store.{Store, Fault, not_found, broken}
use wird.Root.Strip.Spec.{Peeled}
use wird.Root.Resolve.{Failure, not_arabic, no_root, store_error, bare_root}

module _ (st : Store) where
  -- The root that goes by these letters: the store's record, or the letters alone.
  abbrev pub Names : Word → Root → Type 0
  Names letters root =
      ((rec : RootRecord) × (st.root letters ≡ done rec) × (root ≡ rec.root))
      ⊎ ((st.root letters ≡ fail not_found) × (root ≡ bare_root letters))

  -- What the store says of a form that a stem or a word is looked up by.
  pub data Known (n : Word) : Entry → Type 0 where
    as_form : (e : Entry) → st.entry_by_normalized n ≡ done e → Known n e
    as_lemma :
        (e : Entry)
        → st.entry_by_normalized n ≡ fail not_found
        → st.entry_by_lemma n ≡ done e
        → Known n e

  -- The store has no entry for a spelling, on rungs two and three.
  abbrev pub IsUnknown : Word → Type 0
  IsUnknown n = (st.entry_by_normalized n ≡ fail not_found) × (st.entry_by_lemma n ≡ fail not_found)

  module _ (word n : Word) where
    -- What the letters of an answer rest on, by its method. Always the corpus recording the word,
    -- its normalised spelling, or a stem of it.
    pub data Justified : Method → Word → Type 0 where
      by_surface : (e : Entry) → st.entry_by_surface word ≡ done e → Justified lexicon e.root
      by_form : (e : Entry) → st.entry_by_normalized n ≡ done e → Justified normalized e.root
      by_lemma :
          (e : Entry)
          → st.entry_by_normalized n ≡ fail not_found
          → st.entry_by_lemma n ≡ done e
          → Justified lemma e.root
      by_stem : (stem : Word) (e : Entry) → Peeled n stem → Known stem e → Justified stripped e.root
      by_attestation :
          (a : Word)
          → st.attests n ≡ done (a ∷ [])
          → st.rootless n ≡ done false
          → Justified pattern_match a
      by_spelling :
          (x : Word) (all : List Word)
          → st.attests n ≡ done all
          → Has all x
          → st.attests_surface word ≡ done (x ∷ [])
          → st.rootless_surface word ≡ done false
          → Justified lexicon x
      by_collision :
          (a : Word) (more : List Word) → st.attests n ≡ done (a ∷ more) → Justified shared a

    -- The roots that a shared spelling is answered with lead with the root of the answer; other
    -- answers have no such list.
    abbrev pub LeadsWith : Method → Root → List Root → Type 0
    LeadsWith shared root roots = (rest : List Root) × (roots ≡ root ∷ rest)
    LeadsWith _ root roots = roots ≡ []

    pub record Answered (r : Result) : Type 0 where
      pub letters : Word
      pub justified : Justified r.method letters
      pub names : Names letters r.root
      pub leads : LeadsWith r.method r.root r.roots
      pub spelled : (r.input ≡ word) × (r.normalized ≡ n)

    -- The corpus itself says that the spelling, or its key, has no root.
    abbrev pub SaidRootless : Type 0
    SaidRootless =
        ((st.rootless_surface word ≡ done true) × (st.attests_surface word ≡ done []))
        ⊎ ((st.rootless n ≡ done true) × (st.attests n ≡ done []))

    -- Every rung missed.
    pub record Exhausted : Type 0 where
      pub surface : st.entry_by_surface word ≡ fail not_found
      pub unknown : IsUnknown n
      pub stems : (stem : Word) → Peeled n stem → IsUnknown stem
      pub attested : st.attests n ≡ done []
      pub not_rootless : st.rootless n ≡ done false

  -- A candidate is marked known exactly if the store has a root of its letters.
  abbrev pub IsMarked : Candidate → Type 0
  IsMarked c =
      ((c.known ≡ true) × (rec : RootRecord) × (st.root c.letters ≡ done rec))
      ⊎ ((c.known ≡ false) × (st.root c.letters ≡ fail not_found))

  -- A store none of whose calls breaks, and whose yes-or-no questions and lists always answer.
  pub record IsSteady : Type 0 where
    pub surface : (w : Word) (c : ℕ) → st.entry_by_surface w ≢ fail (broken c)
    pub form : (w : Word) (c : ℕ) → st.entry_by_normalized w ≢ fail (broken c)
    pub lemma : (w : Word) (c : ℕ) → st.entry_by_lemma w ≢ fail (broken c)
    pub root : (w : Word) (c : ℕ) → st.root w ≢ fail (broken c)
    pub attests : (w : Word) (f : Fault) → st.attests w ≢ fail f
    pub attests_surface : (w : Word) (f : Fault) → st.attests_surface w ≢ fail f
    pub rootless : (w : Word) (f : Fault) → st.rootless w ≢ fail f
    pub rootless_surface : (w : Word) (f : Fault) → st.rootless_surface w ≢ fail f
    pub meanings : (w : Word) (ls : List Word) (f : Fault) → st.meanings w ls ≢ fail f

  module _ (word n : Word) where
    pub record Missed (e : NoRootError) : Type 0 where
      pub about : (e.word ≡ word) × (e.normalized ≡ n)
      pub said : e.rootless ≡ true → SaidRootless word n × (e.candidates ≡ [])
      pub exhausted : e.rootless ≡ false → Exhausted word n
      pub marked : All IsMarked e.candidates

    -- What each error of the resolver means.
    abbrev pub Meant : Failure → Type 0
    Meant not_arabic = ⊥
    Meant (no_root e) = Missed e
    Meant (store_error f) = ¬ IsSteady
