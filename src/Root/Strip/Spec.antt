-- ===== src/Root/Strip/Spec.antt =====
-- What peeling is, stated on words alone: a clitic of the tables comes off one end, where it may
-- stand, and leaves at least `min_stem` letters.
use mathlib.Core.List.{Memᴰ}
use wird.Prelude.{◌≤◌, ◌≡◌, true, ◌||◌, ◌++◌, contains, nat_eq, length, get_or}
use wird.Text.{Word, is_empty}
use wird.Root.Strip.{Prefix, min_stem, strip_prefixes, strip_suffixes}

abbrev pub MaySitOn : Prefix → Word → Type 0
MaySitOn p stem = (is_empty p.before || contains p.before (get_or stem 0 0)) ≡ true

pub data Peel (w stem : Word) : Type 0 where
  front :
      (p : Prefix)
      → Memᴰ p strip_prefixes
      → MaySitOn p stem
      → w ≡ p.text ++ stem
      → min_stem ≤ length stem
      → Peel w stem
  back : (q : Word) → Memᴰ q strip_suffixes → w ≡ stem ++ q → min_stem ≤ length stem → Peel w stem

-- One clitic or more.
pub data Peeled (w : Word) : Word → Type 0 where
  once : {stem : Word} → Peel w stem → Peeled w stem
  more : {v stem : Word} → Peeled w v → Peel v stem → Peeled w stem
