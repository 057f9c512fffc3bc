-- ===== src/Sync/Changes/Following.antt =====
-- A device that follows the cursor is sent every row of its reader once, in the order of the server.
use Prim.Native.String.{String}
use native.Mathlib.Nat.{suc-mul, zero-mul}
use wird.Prelude.{
  ◌≡◌, ◌≢◌, refl, sym, ap, subst, ◌∙◌, false, List, [], ◌∷◌, ◌++◌, map, none, length, take, drop,
  keep, Bool-cases, inl, inr, ℕ, zero, suc, ◌*◌, ◌<◌, ◌≤◌, arith, All, IsNodup, nat_eq, nat_beq,
  nat_beq_iff, length-take, take++drop, take_all, length-drop, if◌then◌else◌,
}
use wird.Prelude.Attempt.{Attempt, done, ◌>>=◌}
use wird.Prelude.Sort.{sort, All-sort, length-sort}
use wird.Text.{Word}
use wird.Text.Decimal.{int64_limit}
use wird.Sync.Changes.{
  StampedTables, Change, Changes, change_page, seq_leb, changed, changes_sql, ChangesError,
  parse_cursor, format_cursor, last_seq, answer_page, changes,
}
use wird.Sync.Changes.Cursor.{parse_cursor-format_cursor}
use wird.Sync.Changes.Pages.{
  after, IsStrict, seqs, keep-sort, changed-after, keep-keep, sort-IsStrict, keep-drop, le-last_seq,
  last_seq-lt, keep-after, All-keep, keep-IsStrict,
}

abbrev pub rows_of : List (ℕ × Change) → List Change
rows_of rows = map (λ c. c.1) rows

-- What a device is sent that asks again with the cursor of each page, while there is more.
abbrev joined : Changes → Attempt ChangesError (List Change) → Attempt ChangesError (List Change)
joined p rest = if p.more then (do later ← rest; done (p.changes ++ later)) else done p.changes

abbrev pub follow : StampedTables → String → ℕ → Word → Attempt ChangesError (List Change)
follow t user zero cursor = done []
follow t user (suc n) cursor =
    changes none t user cursor >>= λ p. joined p (follow t user n p.cursor)

rows_of-append : (xs ys : List (ℕ × Change)) → rows_of (xs ++ ys) ≡ rows_of xs ++ rows_of ys
rows_of-append [] ys = refl
rows_of-append (x ∷ xs) ys = ap (λ l. x.1 ∷ l) (rows_of-append xs ys)

length_zero : (xs : List (ℕ × Change)) → length xs ≡ 0 → xs ≡ []
length_zero [] h = refl
length_zero (x ∷ xs) h = absurd (omega arith)

change_page_positive : 0 < change_page
unfolding change_page
change_page_positive = omega arith

module _ (t : StampedTables) (user : String) (distinct : IsNodup (seqs (changed user 0 t)))
    (small : All (λ c. c.0 < int64_limit) (changed user 0 t)) where
  abbrev rows : List (ℕ × Change)
  rows = sort seq_leb (changed user 0 t)

  abbrev remaining : ℕ → List (ℕ × Change)
  remaining since = keep (after since) rows

  remaining-IsStrict : (since : ℕ) → IsStrict (remaining since)
  remaining-IsStrict since = keep-IsStrict since rows (sort-IsStrict (changed user 0 t) distinct)

  changes_sql-remaining : (since n : ℕ) → changes_sql user since n t ≡ take n (remaining since)
  unfolding changes_sql
  changes_sql-remaining since n =
      ap (take n)
        (ap (sort seq_leb) (changed-after user since t) ∙ sym (keep-sort since (changed user 0 t)))

  -- The position after a page is that of the rows that the page leaves.
  next :
      (n since : ℕ)
      → remaining (last_seq since (take n (remaining since))) ≡ drop n (remaining since)
  next n since =
      sym (
        keep-keep since (last_seq since (take n (remaining since))) rows (
          le-last_seq n since (remaining since) (keep-after since rows) (remaining-IsStrict since)))
      ∙ keep-drop n since (remaining since) (keep-after since rows) (remaining-IsStrict since)

  -- A page that is not full is the last.
  short :
      (r : ℕ × Change) (page : List (ℕ × Change)) (since : ℕ)
      → take change_page (remaining since) ≡ r ∷ page
      → nat_beq (length (r ∷ page)) change_page ≡ false
      → length (remaining since) ≤ change_page
  short r page since e part =
      let not_full : length (r ∷ page) ≢ change_page =
        λ x. (ground (arith, (nat_beq_iff (length (r ∷ page)) change_page).1 x)) in
      omega (arith, length-take change_page (remaining since), ap length e, not_full)

  page_joined :
      (cursor : Word) (n since : ℕ) (page : List (ℕ × Change))
      → take change_page (remaining since) ≡ page
      → ((0 < length page)
          → (length page ≡ change_page)
          → follow t user n (format_cursor (last_seq since page))
            ≡ done (rows_of (drop change_page (remaining since))))
      → joined (answer_page cursor page) (follow t user n (answer_page cursor page).cursor)
        ≡ done (rows_of (remaining since))
  unfolding answer_page
  page_joined cursor n since [] e rest =
      let none_left : remaining since ≡ [] = length_zero (remaining since) (
        omega
          (arith, length-take change_page (remaining since), ap length e, change_page_positive)) in
      rw none_left refl
  page_joined cursor n since (r ∷ page) e rest =
      elim (Bool-cases (nat_beq (length (r ∷ page)) change_page)) [
        | inl full ↦
            rw (full, rest (omega arith) ((nat_beq_iff (length (r ∷ page)) change_page).0 full))
              (ap done (
                sym (rows_of-append (r ∷ page) (drop change_page (remaining since)))
                ∙ ap rows_of (
                    subst (λ l. l ++ drop change_page (remaining since) ≡ remaining since) e
                      (take++drop change_page (remaining since)))))
        | inr part ↦
            let whole : take change_page (remaining since) ≡ remaining since =
              take_all change_page (remaining since) (short r page since e part) in
            rw part (ap (λ l. done (rows_of l)) (sym e ∙ whole))
      ]

  position_small :
      (n since : ℕ) → since < int64_limit → last_seq since (take n (remaining since)) < int64_limit
  position_small n since h = last_seq-lt n since int64_limit (remaining since) h (
      All-keep (λ c. c.0 < int64_limit) since rows
        (All-sort seq_leb (λ c. c.0 < int64_limit) (changed user 0 t) small))

  changes_at :
      (since : ℕ) (cursor : Word)
      → parse_cursor cursor ≡ done since
      → changes none t user cursor ≡ done (answer_page cursor (take change_page (remaining since)))
  unfolding changes
  changes_at since cursor at =
      rw at (ap (λ l. done (answer_page cursor l)) (changes_sql-remaining since change_page))

  follow_from :
      (n since : ℕ) (cursor : Word)
      → parse_cursor cursor ≡ done since
      → since < int64_limit
      → length (remaining since) < n * change_page
      → follow t user n cursor ≡ done (rows_of (remaining since))
  follow_from zero since cursor at h few = absurd (omega (arith, zero-mul change_page))
  follow_from (suc n) since cursor at h few =
      let page = take change_page (remaining since) in
      let last = last_seq since page in
      rw (changes_at since cursor at) (
        page_joined cursor n since page refl
          (λ (some_rows : 0 < length page) (full : length page ≡ change_page).
            follow_from n last (format_cursor last)
              (parse_cursor-format_cursor last (position_small change_page since h))
              (position_small change_page since h)
              (omega (
                arith,
                few,
                full,
                ap length (next change_page since),
                length-drop change_page (remaining since),
                suc-mul n change_page,
                length-take change_page (remaining since),
              ))
            ∙ ap (λ l. done (rows_of l)) (next change_page since)))

  from_start : remaining 0 ≡ rows
  from_start = keep-sort 0 (changed user 0 t) ∙ ap (sort seq_leb) (sym (changed-after user 0 t))

  -- Where the numbers of the reader's rows differ and fit in 64 bits, a device that starts without a
  -- cursor and asks again while there is more has, after enough pages, every row of the reader with a
  -- number above 0, once and by number, if the rows do not change meanwhile.
  pub follow_complete :
      (n : ℕ)
      → length (changed user 0 t) < n * change_page
      → follow t user n [] ≡ done (rows_of (sort seq_leb (changed user 0 t)))
  unfolding parse_cursor
  follow_complete n few =
      follow_from n 0 [] refl (omega arith)
        (omega (arith, few, ap length from_start, length-sort seq_leb (changed user 0 t)))
      ∙ ap (λ l. done (rows_of l)) from_start
