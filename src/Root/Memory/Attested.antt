-- ===== src/Root/Memory/Attested.antt =====
-- The two indexes of attested forms, as the store answers from them.
use mathlib.Core.Bool.{Bool-set}
use mathlib.Core.List.{Perm, Permᴰ}
use mathlib.Core.Logic.{∥∥₁_elim}
use wird.Prelude.{
  ◌≡◌, refl, sym, ap, ◌∙◌, Bool, true, not, ◌&&◌, List, [], arith, contains, IsNodup, nat_eq,
  list_eq,
}
use wird.Prelude.Map.{Map, get}
use wird.Prelude.Attempt.{done}
use wird.Prelude.Sort.{
  contains-sort, sort-IsNodup, IsSorted, IsTotalOrder, sort-IsSorted, sorted_unique,
}
use wird.Text.{Word, is_empty}
use wird.Text.Order.{word_leb-total, word_leb_trans, word_leb-antisym}
use wird.Text.Unicode.{Unicode}
use wird.Root.Types.{RootRecord}
use wird.Root.Normalize.{trim_marks, index_keys}
use wird.Root.Memory.{
  Corpus, new_memory_store, memory, roots_at, index_roots, index_attested, sort_by_use, use_leb,
  spelling,
}
use wird.Root.Memory.Attests.{
  records, contains-index_attested, IsNodup-index_attested, roots_at-sort_by_use,
}

use_leb-IsTotalOrder : (roots : Map Word RootRecord) → IsTotalOrder (use_leb roots)
unfolding use_leb
use_leb-IsTotalOrder roots = record {
  total = λ a b. ground (arith, word_leb-total a b);
  trans = λ a b c h k. ground (arith, word_leb_trans a b c);
}

use_leb-antisym :
    (roots : Map Word RootRecord) (a b : Word)
    → use_leb roots a b ≡ true
    → use_leb roots b a ≡ true
    → a ≡ b
unfolding use_leb
use_leb-antisym roots a b h k = ground (arith, word_leb-antisym a b)

-- What an index of attested forms answers at a key.
module _ (keys : Word → List Word) (roots : Map Word RootRecord) (j : Word) where
  abbrev answers : Map Word (List Word) → List Word
  answers c = roots_at (sort_by_use roots (index_attested keys [] c)) j

  contains-answers :
      (c : Map Word (List Word)) (x : Word)
      → contains (answers c) x ≡ (not (is_empty j) && records j keys x c)
  unfolding roots_at get
  contains-answers c x =
      rw (roots_at-sort_by_use j roots (index_attested keys [] c))
        (contains-sort (use_leb roots) _ x ∙ contains-index_attested j keys [] c x)

  answers-IsNodup : (c : Map Word (List Word)) → IsNodup (answers c)
  unfolding roots_at get
  answers-IsNodup c =
      rw (roots_at-sort_by_use j roots (index_attested keys [] c))
        (sort-IsNodup (use_leb roots) _ (IsNodup-index_attested j keys [] c tt))

  answers-IsSorted : (c : Map Word (List Word)) → IsSorted (use_leb roots) (answers c)
  answers-IsSorted c =
      rw (roots_at-sort_by_use j roots (index_attested keys [] c))
        (sort-IsSorted (use_leb roots) (use_leb-IsTotalOrder roots) _)

  records-permuted :
      (x : Word) {a b : Map Word (List Word)} → Permᴰ a b → records j keys x a ≡ records j keys x b
  records-permuted x Permᴰ.nil = refl
  records-permuted x (Permᴰ.cons {a} {b} {l₁} {l₂} e p) = ground (arith, e, records-permuted x p)
  records-permuted x (Permᴰ.swap e f) = ground (arith, e, f)
  records-permuted x (Permᴰ.trans p q) = records-permuted x p ∙ records-permuted x q

  answers-permuted : {a b : Map Word (List Word)} → Perm a b → answers a ≡ answers b
  answers-permuted {a} {b} p =
      sorted_unique (use_leb roots) (use_leb-antisym roots) (answers a) (answers b)
        (answers-IsSorted a) (answers-IsNodup a) (answers-IsSorted b) (answers-IsNodup b)
        (λ x.
          contains-answers a x
          ∙ ap (λ r. not (is_empty j) && r) (∥∥₁_elim p (Bool-set _ _) (records-permuted x))
          ∙ sym (contains-answers b x))

module _ (u : Unicode) (c : Corpus) (form : Word) where
  abbrev order : Word → Word → Bool
  order = use_leb (index_roots [] c.roots)

  -- The answer to `AttestsSurface`: exactly the roots that some form of this spelling, recitation
  -- marks aside, is recorded under, each once, the most used first; none for a spelling of marks only.
  pub attests_surface_exact :
      (rs : List Word) × ((memory (new_memory_store u c)).attests_surface form ≡ done rs)
      × ((x : Word)
          → contains rs x
            ≡ (not (is_empty (trim_marks form)) && records (trim_marks form) spelling x c.attested))
      × IsNodup rs
      × IsSorted order rs
  unfolding memory new_memory_store
  attests_surface_exact =
      let roots = index_roots [] c.roots in
      let key = trim_marks form in
      (
        answers spelling roots key c.attested,
        refl,
        contains-answers spelling roots key c.attested,
        answers-IsNodup spelling roots key c.attested,
        answers-IsSorted spelling roots key c.attested,
      )

  -- The order in which the map of attested forms is ranged over does not show in either answer.
  pub attests_deterministic :
      (attested : Map Word (List Word))
      → Perm c.attested attested
      → ((memory (new_memory_store u c)).attests form
          ≡ (memory (new_memory_store u (record c { attested = attested }))).attests form)
        × ((memory (new_memory_store u c)).attests_surface form
            ≡ (memory (new_memory_store u (record c { attested = attested }))).attests_surface form)
  unfolding memory new_memory_store
  attests_deterministic attested p =
      let roots = index_roots [] c.roots in
      (
        ap done (answers-permuted (index_keys u) roots form p),
        ap done (answers-permuted spelling roots (trim_marks form) p),
      )
