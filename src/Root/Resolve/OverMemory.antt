-- ===== src/Root/Resolve/OverMemory.antt =====
-- The resolver over a store in memory: it has no error of its own.
use wird.Prelude.{ℕ, ◌≢◌, List, nat_eq, list_eq, arith}
use wird.Prelude.Attempt.{fail}
use wird.Prelude.Map.{Map}
use wird.Text.{Word}
use wird.Text.Unicode.{Unicode}
use wird.Root.Store.{Fault, broken}
use wird.Root.Memory.{MemoryStore, memory, find}
use wird.Root.Pattern.{match_pattern}
use wird.Root.Resolve.{store_error}
use wird.Root.Resolve.Ladder.{resolve_word}
use wird.Root.Resolve.Spec.{IsSteady}
use wird.Root.Resolve.Outcomes.{resolve_steady}

pub find_steady : {V : Type 0} (m : Map Word V) (k : Word) (c : ℕ) → find m k ≢ fail (broken c)
unfolding find
find_steady m k c e = ground arith

pub memory-IsSteady : (m : MemoryStore) → IsSteady (memory m)
unfolding memory
memory-IsSteady m = record {
  surface = find_steady m.by_surface;
  form = find_steady m.by_normalized;
  lemma = find_steady m.by_lemma;
  root = find_steady m.roots;
  attests = λ w f e. cc;
  attests_surface = λ w f e. cc;
  rootless = λ w f e. cc;
  rootless_surface = λ w f e. cc;
  meanings = λ w ls f e. cc;
}

-- Over a store in memory `Resolve` answers, or says that the input is not Arabic or has no root; it
-- has no other error.
pub resolve-memory :
    (u : Unicode) (m : MemoryStore) (word : Word) (langs : List Word) (f : Fault)
    → resolve_word u (memory m) word langs ≢ fail (store_error f)
unfolding resolve_word
resolve-memory u m word langs f =
    resolve_steady (match_pattern u) (memory m) u word langs f (memory-IsSteady m)
