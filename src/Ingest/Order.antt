-- ===== src/Ingest/Order.antt =====
-- checkRevelationOrder of server/cmd/ingest/verify.go.
pub mod Ranks
use wird.Prelude.{
  ℕ, zero, suc, ◌+◌, Bool, true, false, not, ◌||◌, Option, none, some, List, [], ◌∷◌, length, ltb,
  nat_beq, nat_eq, if◌then◌else◌,
}
use wird.Prelude.Map.{Map, get, put}
use wird.Text.{Word}

-- A chapter of chapters.json.
pub record Chapter : Type 0 where
  pub id : ℕ
  pub verses_count : ℕ
  pub revelation_order : ℕ

pub data OrderError : Type 0 where
  outside : ℕ → ℕ → OrderError
  share : ℕ → ℕ → ℕ → OrderError
  covers : ℕ → OrderError

abbrev pub seen_before : Chapter → Option ℕ → Option OrderError → Option OrderError
seen_before ch (some other) rest = some (share other ch.id ch.revelation_order)
seen_before ch none rest = rest

unfoldable pub order_loop : Map ℕ ℕ → List Chapter → Option OrderError
order_loop seen [] = if nat_beq (length seen) 114 then none else some (covers (length seen))
order_loop seen (ch ∷ chapters) =
    let rest = order_loop (put seen ch.revelation_order ch.id) chapters in
    if ltb ch.revelation_order 1 || ltb 114 ch.revelation_order
    then some (outside ch.id ch.revelation_order)
    else seen_before ch (get seen ch.revelation_order) rest

unfoldable pub check_revelation_order : List Chapter → Option OrderError
unfolding order_loop
check_revelation_order chapters = order_loop [] chapters
