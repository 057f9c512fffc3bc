-- ===== src/Ingest/Order/Ranks.antt =====
-- What the check of the revelation order lets through.
use wird.Prelude.{
  ◌≡◌, refl, sym, ◌∙◌, ℕ, ◌+◌, ◌≤◌, ◌<◌, ◌↔◌, true, false, ◌||◌, none, some, List, [], ◌∷◌, map,
  contains, length, nat_beq, nat_eq, ltb, All, IsNodup, Bool-cases, Option-cases, inl, inr, arith,
}
use wird.Prelude.Map.{Map, get, put, get-put}
use wird.Ingest.Order.{Chapter, order_loop, outside, share, check_revelation_order}
use wird.Ingest.Counting.{missing_from-length, missing_from-all}

abbrev pub ranks : List Chapter → List ℕ
ranks chapters = map (λ (ch : Chapter). ch.revelation_order) chapters

-- The ranks are between 1 and 114, and no two are the same.
abbrev pub IsRanked : List Chapter → Type 0
IsRanked chapters =
    All (λ p. (1 ≤ p) × (p < 1 + 114)) (ranks chapters)
    × IsNodup (ranks chapters)
    × (length (ranks chapters) ≡ 114)

-- Each rank from 1 to 114 is a chapter's.
abbrev pub IsCovered : List Chapter → Type 0
IsCovered chapters = (i : ℕ) → 1 ≤ i → i ≤ 114 → contains (ranks chapters) i ≡ true

length-put_new : (m : Map ℕ ℕ) (k v : ℕ) → get m k ≡ none → length (put m k v) ≡ length m + 1
unfolding get put
length-put_new [] k v h = refl
length-put_new ((j, w) ∷ m) k v h = ground (arith, h, length-put_new m k v)

-- Ranks that none of the seen ones is.
abbrev IsFresh : Map ℕ ℕ → List Chapter → Type 0
IsFresh seen chapters = All (λ (ch : Chapter). get seen ch.revelation_order ≡ none) chapters

put-IsFresh :
    (seen : Map ℕ ℕ) (k v : ℕ) (chapters : List Chapter)
    → IsFresh (put seen k v) chapters
      ↔ (IsFresh seen chapters × (contains (ranks chapters) k ≡ false))
put-IsFresh seen k v [] = (λ h. (tt, refl), λ h. tt)
put-IsFresh seen k v (ch ∷ chapters) =
    let later = put-IsFresh seen k v chapters in
    let read = get-put seen k ch.revelation_order v in
    elim (Bool-cases (nat_beq k ch.revelation_order)) [
      | inl e ↦ (
        λ h. let bad : some v ≡ none = sym (read ∙ rw e refl) ∙ h.0 in cc,
        λ h.
            let no : contains (ranks (ch ∷ chapters)) k ≡ false = h.1 in
            absurd (ground (arith, e, no)),
      )
      | inr e ↦
          let same : get (put seen k v) ch.revelation_order ≡ get seen ch.revelation_order =
            read ∙ rw e refl in
          (
            λ h. ((sym same ∙ h.0, (later.0 h.1).0), ground (arith, e, (later.0 h.1).1)),
            λ h. (same ∙ h.0.0, later.1 (h.0.1, ground (arith, e, h.1))),
          )
    ]

order_loop-none :
    (seen : Map ℕ ℕ) (chapters : List Chapter)
    → (order_loop seen chapters ≡ none) ↔ (
        All (λ p. (1 ≤ p) × (p < 1 + 114)) (ranks chapters)
        × IsNodup (ranks chapters)
        × IsFresh seen chapters
        × (length seen + length (ranks chapters) ≡ 114))
unfolding order_loop
order_loop-none seen [] = ground arith
order_loop-none seen (ch ∷ chapters) =
    let r = ch.revelation_order in
    let later = order_loop-none (put seen r ch.id) chapters in
    let fresh = put-IsFresh seen r ch.id chapters in
    elim (Bool-cases (ltb r 1 || ltb 114 r)) [
      | inl e ↦ (
        λ h. let bad : some (outside ch.id r) ≡ none = (rw e at h) in cc,
        λ h. absurd (ground (arith, e, h.0.0)),
      )
      | inr e ↦ elim (Option-cases (get seen r)) [
        | inr (other, old) ↦
            (λ h. let bad : some (share other ch.id r) ≡ none = (rw (e, old) at h) in cc, λ h. cc)
        | inl new ↦
            let longer = length-put_new seen r ch.id new in
            (
              λ h.
                  let (a, b, c, d) = later.0 (rw (e, new) at h) in
                  let (f, n) = fresh.0 c in
                  ((ground (arith, e), a), (n, b), (new, f), omega (arith, longer, d)),
              λ (a, b, c, d).
                  rw (e, new) (later.1 (a.1, b.1, fresh.1 (c.1, b.0), omega (arith, longer, d))),
            )
      ]
    ]

no_seen : (chapters : List Chapter) → IsFresh [] chapters
unfolding get
no_seen [] = tt
no_seen (ch ∷ chapters) = (refl, no_seen chapters)

-- The check passes exactly if there are 114 chapters with different ranks between 1 and 114, which then
-- are all the ranks there are.
pub check_revelation_order_exact :
    (chapters : List Chapter)
    → (check_revelation_order chapters ≡ none) ↔ (IsRanked chapters × IsCovered chapters)
unfolding check_revelation_order
check_revelation_order_exact chapters =
    let loop = order_loop-none [] chapters in
    (
      λ h.
          let (a, b, c, d) = loop.0 h in
          let all = missing_from-length 1 114 (ranks chapters) a b in
          (
            (a, b, omega (arith, d)),
            λ i low high.
                missing_from-all 1 114 i (ranks chapters) (omega (arith, all, d)) low (omega arith),
          ),
      λ (ranked, held). loop.1 (ranked.0, ranked.1, no_seen chapters, omega (arith, ranked.2)),
    )
