-- ===== src/Root/Memory/Lookup.antt =====
-- The indexes of entries: the first entry of the corpus that claims a key is the one that is found.
use wird.Prelude.{
  ◌==◌, ◌≡◌, refl, ap, Bool, true, false, not, ◌&&◌, List, [], ◌∷◌, Option, none, some, arith,
  contains, nat_eq, list_eq, list_beq_iff, if◌then◌else◌,
}
use wird.Prelude.Map.{Map, get, get-put}
use wird.Text.{Word, is_empty}
use wird.Text.Unicode.{Unicode}
use wird.Root.Types.{Entry}
use wird.Root.Normalize.{index_keys}
use wird.Root.Memory.{
  Corpus, new_memory_store, memory, index, index_all, index_surfaces, index_spellings, find, answer,
}

abbrev or_else : Option Entry → Option Entry → Option Entry
or_else none p = p
or_else (some e) p = some e

or_else_assoc : (a b c : Option Entry) → or_else (or_else a b) c ≡ or_else a (or_else b c)
or_else_assoc none b c = refl
or_else_assoc (some a) b c = refl

-- The first entry that passes a test.
abbrev pub first : (Entry → Bool) → List Entry → Option Entry
first p [] = none
first p (e ∷ es) = let rest = first p es in if p e then some e else rest

abbrev when : Bool → Entry → Option Entry
when true e = some e
when false e = none

module _ (j : Word) where
  get-index :
      (m : Map Word Entry) (k : Word) (e : Entry)
      → get (index m k e) j ≡ or_else (get m j) (when (not (is_empty j) && j == k) e)
  unfolding index
  get-index m k e = ground (arith, get-put m k j e, list_beq_iff j k, list_beq_iff k j)

  get-index_all :
      (m : Map Word Entry) (ks : List Word) (e : Entry)
      → get (index_all m ks e) j ≡ or_else (get m j) (when (not (is_empty j) && contains ks j) e)
  unfolding index_all
  get-index_all m [] e = ground arith
  get-index_all m (k ∷ ks) e = ground (arith, get-index_all (index m k e) ks e, get-index m k e)

  get-index_surfaces :
      (m : Map Word Entry) (es : List Entry)
      → get (index_surfaces m es) j
        ≡ or_else (get m j) (first (λ e. not (is_empty j) && j == e.surface) es)
  unfolding index_surfaces
  get-index_surfaces m [] = ground arith
  get-index_surfaces m (e ∷ es) =
      ground (arith, get-index_surfaces (index m e.surface e) es, get-index m e.surface e)

  get-index_spellings :
      (keys : Word → List Word) (field : Entry → Word) (m : Map Word Entry) (es : List Entry)
      → get (index_spellings keys field m es) j
        ≡ or_else (get m j) (first (λ e. not (is_empty j) && contains (keys (field e)) j) es)
  unfolding index_spellings
  get-index_spellings keys field m [] = ground arith
  get-index_spellings keys field m (e ∷ es) = ground (
    arith,
    get-index_spellings keys field (index_all m (keys (field e)) e) es,
    get-index_all m (keys (field e)) e,
  )

module _ (u : Unicode) (c : Corpus) (j : Word) where
  -- A written form is found as the first entry with that very surface, unless it is empty.
  pub entry_by_surface_first :
      (memory (new_memory_store u c)).entry_by_surface j
      ≡ answer (first (λ e. not (is_empty j) && j == e.surface) c.entries)
  unfolding memory new_memory_store find get
  entry_by_surface_first = ap answer (get-index_surfaces j [] c.entries)

  -- A normalised spelling is found as the first entry with a surface that is stored under it,
  -- unless it is empty.
  pub entry_by_normalized_first :
      (memory (new_memory_store u c)).entry_by_normalized j
      ≡ answer (first (λ e. not (is_empty j) && contains (index_keys u e.surface) j) c.entries)
  unfolding memory new_memory_store find get
  entry_by_normalized_first =
      ap answer (get-index_spellings j (index_keys u) (λ e. e.surface) [] c.entries)

  -- A lemma is found as the first entry whose lemma is stored under it, unless it is empty.
  pub entry_by_lemma_first :
      (memory (new_memory_store u c)).entry_by_lemma j
      ≡ answer (first (λ e. not (is_empty j) && contains (index_keys u e.lemma) j) c.entries)
  unfolding memory new_memory_store find get
  entry_by_lemma_first =
      ap answer (get-index_spellings j (index_keys u) (λ e. e.lemma) [] c.entries)
