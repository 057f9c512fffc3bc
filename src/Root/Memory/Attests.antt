-- ===== src/Root/Memory/Attests.antt =====
-- What the index of `c.Attested` answers: each root under each key of each form that names it, once,
-- in the order of use, whatever the order of the map.
use wird.Prelude.{
  ◌==◌, ◌≡◌, refl, Bool, not, ◌&&◌, ◌||◌, List, [], ◌∷◌, ◌++◌, arith, any, contains,
  contains-append, IsNodup, IsNodup-snoc, nat_eq, list_eq, list_beq_iff, if◌then◌else◌,
}
use wird.Prelude.Map.{Map, get, put, get-put}
use wird.Prelude.Sort.{sort}
use wird.Text.{Word, is_empty}
use wird.Root.Types.{RootRecord}
use wird.Root.Memory.{
  roots_at, add_root, add_root_under, add_roots, index_attested, sort_by_use, use_leb,
}

roots_at-put :
    (m : Map Word (List Word)) (k j : Word) (v : List Word)
    → roots_at (put m k v) j ≡ (if k == j then v else roots_at m j)
unfolding roots_at
roots_at-put m k j v = ground (arith, get-put m k j v)

module _ (j : Word) where
  contains-add_root :
      (m : Map Word (List Word)) (k r x : Word)
      → contains (roots_at (add_root m k r) j) x
        ≡ (contains (roots_at m j) x || not (is_empty j) && j == k && x == r)
  unfolding add_root
  contains-add_root m k r x = ground (
    arith,
    roots_at-put m k j (roots_at m k ++ r ∷ []),
    list_beq_iff j k,
    list_beq_iff k j,
    list_beq_iff x r,
    contains-append (roots_at m k) (r ∷ []) x,
  )

  IsNodup-add_root :
      (m : Map Word (List Word)) (k r : Word)
      → IsNodup (roots_at m j)
      → IsNodup (roots_at (add_root m k r) j)
  unfolding add_root
  IsNodup-add_root m k r h = ground (
    arith,
    roots_at-put m k j (roots_at m k ++ r ∷ []),
    list_beq_iff k j,
    IsNodup-snoc (roots_at m j) r h,
  )

  contains-add_root_under :
      (m : Map Word (List Word)) (ks : List Word) (r x : Word)
      → contains (roots_at (add_root_under m ks r) j) x
        ≡ (contains (roots_at m j) x || not (is_empty j) && contains ks j && x == r)
  unfolding add_root_under
  contains-add_root_under m [] r x = ground arith
  contains-add_root_under m (k ∷ ks) r x =
      ground (arith, contains-add_root_under (add_root m k r) ks r x, contains-add_root m k r x)

  contains-add_roots :
      (m : Map Word (List Word)) (ks rs : List Word) (x : Word)
      → contains (roots_at (add_roots m ks rs) j) x
        ≡ (contains (roots_at m j) x || not (is_empty j) && contains ks j && contains rs x)
  unfolding add_roots
  contains-add_roots m ks [] x = ground arith
  contains-add_roots m ks (r ∷ rs) x =
      ground (
        arith,
        contains-add_roots (add_root_under m ks r) ks rs x,
        contains-add_root_under m ks r x,
      )

  IsNodup-add_root_under :
      (m : Map Word (List Word)) (ks : List Word) (r : Word)
      → IsNodup (roots_at m j)
      → IsNodup (roots_at (add_root_under m ks r) j)
  unfolding add_root_under
  IsNodup-add_root_under m [] r h = h
  IsNodup-add_root_under m (k ∷ ks) r h =
      IsNodup-add_root_under (add_root m k r) ks r (IsNodup-add_root m k r h)

  IsNodup-add_roots :
      (m : Map Word (List Word)) (ks rs : List Word)
      → IsNodup (roots_at m j)
      → IsNodup (roots_at (add_roots m ks rs) j)
  unfolding add_roots
  IsNodup-add_roots m ks [] h = h
  IsNodup-add_roots m ks (r ∷ rs) h =
      IsNodup-add_roots (add_root_under m ks r) ks rs (IsNodup-add_root_under m ks r h)

  module _ (keys : Word → List Word) where
    -- Some form that is stored under `j` is recorded under the root `x`.
    abbrev pub records : Word → Map Word (List Word) → Bool
    records x c = any (λ (e : Word × List Word). contains (keys e.0) j && contains e.1 x) c

    pub contains-index_attested :
        (m c : Map Word (List Word)) (x : Word)
        → contains (roots_at (index_attested keys m c) j) x
          ≡ (contains (roots_at m j) x || not (is_empty j) && records x c)
    unfolding index_attested
    contains-index_attested m [] x = ground arith
    contains-index_attested m ((form, rs) ∷ c) x = ground (
      arith,
      contains-index_attested (add_roots m (keys form) rs) c x,
      contains-add_roots m (keys form) rs x,
    )

    pub IsNodup-index_attested :
        (m c : Map Word (List Word))
        → IsNodup (roots_at m j)
        → IsNodup (roots_at (index_attested keys m c) j)
    unfolding index_attested
    IsNodup-index_attested m [] h = h
    IsNodup-index_attested m ((form, rs) ∷ c) h =
        IsNodup-index_attested (add_roots m (keys form) rs) c (IsNodup-add_roots m (keys form) rs h)

  pub roots_at-sort_by_use :
      (roots : Map Word RootRecord) (m : Map Word (List Word))
      → roots_at (sort_by_use roots m) j ≡ sort (use_leb roots) (roots_at m j)
  unfolding sort_by_use roots_at get sort
  roots_at-sort_by_use roots [] = refl
  roots_at-sort_by_use roots ((k, rs) ∷ m) = ground (arith, roots_at-sort_by_use roots m)
