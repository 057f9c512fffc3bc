-- ===== src/Root/Memory/Rootless.antt =====
-- The forms that the corpus records under no root, by key and by spelling.
use wird.Prelude.{
  ◌==◌, ◌≡◌, ap, Bool, true, not, ◌&&◌, ◌||◌, List, [], ◌∷◌, arith, any, contains, nat_eq, list_eq,
  list_beq_iff, if◌then◌else◌,
}
use wird.Prelude.Map.{Map, get, put, get-put}
use wird.Prelude.Attempt.{done}
use wird.Text.{Word, is_empty}
use wird.Text.Unicode.{Unicode}
use wird.Root.Normalize.{trim_marks, index_keys}
use wird.Root.Memory.{
  Corpus, new_memory_store, memory, flag_at, set_flags, index_rootless, spelling,
}

flag_at-put :
    (m : Map Word Bool) (k j : Word) (b : Bool)
    → flag_at (put m k b) j ≡ (if k == j then b else flag_at m j)
unfolding flag_at
flag_at-put m k j b = ground (arith, get-put m k j b)

module _ (j : Word) where
  flag_at-set_flags :
      (m : Map Word Bool) (ks : List Word)
      → flag_at (set_flags m ks) j ≡ (flag_at m j || not (is_empty j) && contains ks j)
  unfolding set_flags
  flag_at-set_flags m [] = ground arith
  flag_at-set_flags m (k ∷ ks) = ground (
    arith,
    flag_at-set_flags m ks,
    flag_at-set_flags (put m k true) ks,
    flag_at-put m k j true,
    list_beq_iff j k,
    list_beq_iff k j,
  )

  -- Some form that is stored under `j` has no root.
  flag_at-index_rootless :
      (keys : Word → List Word) (m : Map Word Bool) (forms : List Word)
      → flag_at (index_rootless keys m forms) j
        ≡ (flag_at m j || not (is_empty j) && any (λ form. contains (keys form) j) forms)
  unfolding index_rootless
  flag_at-index_rootless keys m [] = ground arith
  flag_at-index_rootless keys m (form ∷ forms) = ground (
    arith,
    flag_at-index_rootless keys (set_flags m (keys form)) forms,
    flag_at-set_flags m (keys form),
  )

module _ (u : Unicode) (c : Corpus) (form : Word) where
  -- A spelling is rootless, by its key or by its exact letters, exactly if it is not empty and the
  -- corpus lists a form that is stored under it.
  pub rootless_exact :
      ((memory (new_memory_store u c)).rootless form
        ≡ done (not (is_empty form) && any (λ f. contains (index_keys u f) form) c.rootless))
      × ((memory (new_memory_store u c)).rootless_surface form
          ≡ done (
              not (is_empty (trim_marks form))
              && any (λ f. contains (spelling f) (trim_marks form)) c.rootless))
  unfolding memory new_memory_store flag_at get
  rootless_exact = (
    ap done (flag_at-index_rootless form (index_keys u) [] c.rootless),
    ap done (flag_at-index_rootless (trim_marks form) spelling [] c.rootless),
  )
