-- ===== src/Root/Store.antt =====
-- The interface `Store` of jidhr/pkg/root/store.go: what the resolver asks of a corpus.
use wird.Prelude.{ℕ, Bool, List}
use wird.Prelude.Map.{Map}
use wird.Prelude.Attempt.{Attempt}
use wird.Text.{Word}
use wird.Root.Types.{Entry, RootRecord, Meaning}

-- `not_found` is ErrNotFound, a miss. Any other error of a store is `broken`, with a code that
-- tells one from another.
pub data Fault : Type 0 where
  not_found : Fault
  broken : ℕ → Fault

pub record Store : Type 0 where
  pub entry_by_surface : Word → Attempt Fault Entry
  pub entry_by_normalized : Word → Attempt Fault Entry
  pub entry_by_lemma : Word → Attempt Fault Entry
  pub root : Word → Attempt Fault RootRecord
  pub attests_surface : Word → Attempt Fault (List Word)
  pub rootless : Word → Attempt Fault Bool
  pub rootless_surface : Word → Attempt Fault Bool
  pub attests : Word → Attempt Fault (List Word)
  pub meanings : Word → List Word → Attempt Fault (Map Word Meaning)
