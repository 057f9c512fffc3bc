-- ===== src/Sync/Changes/Pages.antt =====
-- The rows of a reader past a position: their order, and what a page of them leaves.
use Prim.Native.String.{String}
use wird.Prelude.{
  ◌≡◌, refl, ap, ◌∙◌, Bool, false, List, [], ◌∷◌, ◌++◌, map, take, drop, keep, Bool-cases, inl, inr,
  ℕ, zero, suc, ◌<◌, ◌≤◌, ltb, ltb→lt, arith, All, contains, le→not-ltb, IsNodup, nat_eq,
  if◌then◌else◌,
}
use wird.Prelude.Texts.{string_eq}
use wird.Prelude.Sort.{sort, insert, contains-map-sort}
use wird.Sync.Tables.{Kept, Understood, SetRow, Prayer, Prefs, Position}
use wird.Sync.Changes.{
  Stamped, StampedTables, Change, seq_leb, select, changed, last_seq, of_understood, of_kept,
  of_set, of_prayer, of_prefs, of_position,
}

abbrev pub after : ℕ → ℕ × Change → Bool
after since c = ltb since c.0

-- Each number is less than those that follow.
abbrev pub IsStrict : List (ℕ × Change) → Type 0
IsStrict [] = Unit {0}
IsStrict (c ∷ rows) = All (λ d. c.0 < d.0) rows × IsStrict rows

keep-append :
    (since : ℕ) (xs ys : List (ℕ × Change))
    → keep (after since) (xs ++ ys) ≡ keep (after since) xs ++ keep (after since) ys
keep-append since [] ys = refl
keep-append since (x ∷ xs) ys = ground (arith, keep-append since xs ys)

select-after :
    {R : Type 0} (user : String) (since : ℕ) (owner : R → String) (change : Stamped R → Change)
    (rows : List (Stamped R))
    → select user since owner change rows ≡ keep (after since) (select user 0 owner change rows)
unfolding select
select-after user since owner change [] = refl
select-after user since owner change (s ∷ rows) =
    ground (arith, select-after user since owner change rows)

keep-insert :
    (since : ℕ) (x : ℕ × Change) (ys : List (ℕ × Change))
    → keep (after since) (insert seq_leb x ys)
      ≡ (if after since x then insert seq_leb x (keep (after since) ys) else keep (after since) ys)
unfolding insert
keep-insert since x [] = refl
keep-insert since x (y ∷ ys) = ground (arith, keep-insert since x ys)

pub keep-sort :
    (since : ℕ) (xs : List (ℕ × Change))
    → keep (after since) (sort seq_leb xs) ≡ sort seq_leb (keep (after since) xs)
unfolding sort
keep-sort since [] = refl
keep-sort since (x ∷ xs) = elim (Bool-cases (after since x)) [
  | inl e ↦
      keep-insert since x (sort seq_leb xs)
      ∙ rw (e, sort) (ap (insert seq_leb x) (keep-sort since xs))
  | inr e ↦ keep-insert since x (sort seq_leb xs) ∙ rw (e, sort) (keep-sort since xs)
]

pub changed-after :
    (user : String) (since : ℕ) (t : StampedTables)
    → changed user since t ≡ keep (after since) (changed user 0 t)
unfolding changed
changed-after user since t =
    simp
      (
        keep-append,
        select-after user since (λ (r : Understood). r.user) of_understood t.understood,
        select-after user since (λ (r : Kept). r.user) of_kept t.kept,
        select-after user since (λ (r : SetRow). r.user) of_set t.sets,
        select-after user since (λ (r : Prayer). r.user) of_prayer t.prayers,
        select-after user since (λ (r : Prefs). r.user) of_prefs t.prefs,
        select-after user since (λ (r : Position). r.user) of_position t.positions,
      )
      refl

-- A later position leaves fewer rows.
pub keep-keep :
    (since later : ℕ) (xs : List (ℕ × Change))
    → since ≤ later
    → keep (after later) (keep (after since) xs) ≡ keep (after later) xs
keep-keep since later [] h = refl
keep-keep since later (x ∷ xs) h = ground (arith, keep-keep since later xs h)

All-insert_lt :
    (a : ℕ) (x : ℕ × Change) (xs : List (ℕ × Change))
    → a < x.0
    → All (λ d. a < d.0) xs
    → All (λ d. a < d.0) (insert seq_leb x xs)
unfolding insert
All-insert_lt a x [] h k = (h, tt)
All-insert_lt a x (y ∷ ys) h k = ground (arith, All-insert_lt a x ys h k.1)

All-below :
    (a b : ℕ) (xs : List (ℕ × Change)) → a < b → All (λ d. b < d.0) xs → All (λ d. a < d.0) xs
All-below a b [] h k = tt
All-below a b (x ∷ xs) h k = (omega arith, All-below a b xs h k.1)

abbrev pub seqs : List (ℕ × Change) → List ℕ
seqs xs = map (λ c. c.0) xs

insert-IsStrict :
    (x : ℕ × Change) (xs : List (ℕ × Change))
    → contains (seqs xs) x.0 ≡ false
    → IsStrict xs
    → IsStrict (insert seq_leb x xs)
unfolding insert
insert-IsStrict x [] new h = (tt, tt)
insert-IsStrict x (y ∷ ys) new h = elim (Bool-cases (seq_leb x y)) [
  | inl e ↦
      let less : x.0 < y.0 = ground (arith, new) in rw e ((less, All-below x.0 y.0 ys less h.0), h)
  | inr e ↦
      let rest : contains (seqs ys) x.0 ≡ false = ground (arith, new) in
      rw e (All-insert_lt y.0 x ys (ground arith) h.0, insert-IsStrict x ys rest h.1)
]

-- Rows of different numbers come out in strict order.
pub sort-IsStrict : (xs : List (ℕ × Change)) → IsNodup (seqs xs) → IsStrict (sort seq_leb xs)
unfolding sort
sort-IsStrict [] h = tt
sort-IsStrict (x ∷ xs) h =
    insert-IsStrict x (sort seq_leb xs)
      (contains-map-sort seq_leb (λ (c : ℕ × Change). c.0) xs x.0 ∙ h.0) (sort-IsStrict xs h.1)

keep-all :
    (since : ℕ) (xs : List (ℕ × Change)) → All (λ d. since < d.0) xs → keep (after since) xs ≡ xs
keep-all since [] h = refl
keep-all since (x ∷ xs) h = ground (arith, keep-all since xs h.1)

pub le-last_seq :
    (n a : ℕ) (xs : List (ℕ × Change))
    → All (λ d. a < d.0) xs
    → IsStrict xs
    → a ≤ last_seq a (take n xs)
le-last_seq zero a xs h k = omega arith
le-last_seq (suc n) a [] h k = omega arith
le-last_seq (suc n) a (x ∷ xs) h k = omega (arith, le-last_seq n x.0 xs k.0 k.1, h.0)

-- Past the last of the rows that were taken stand exactly those that were not.
pub keep-drop :
    (n a : ℕ) (xs : List (ℕ × Change))
    → All (λ d. a < d.0) xs
    → IsStrict xs
    → keep (after (last_seq a (take n xs))) xs ≡ drop n xs
keep-drop zero a xs h k = keep-all a xs h
keep-drop (suc n) a [] h k = refl
keep-drop (suc n) a (x ∷ xs) h k =
    rw (le→not-ltb (last_seq x.0 (take n xs)) x.0 (le-last_seq n x.0 xs k.0 k.1))
      (keep-drop n x.0 xs k.0 k.1)

pub last_seq-lt :
    (n a bound : ℕ) (xs : List (ℕ × Change))
    → a < bound
    → All (λ d. d.0 < bound) xs
    → last_seq a (take n xs) < bound
last_seq-lt zero a bound xs h k = h
last_seq-lt (suc n) a bound [] h k = h
last_seq-lt (suc n) a bound (x ∷ xs) h k = last_seq-lt n x.0 bound xs k.0 k.1

pub keep-after :
    (since : ℕ) (xs : List (ℕ × Change)) → All (λ d. since < d.0) (keep (after since) xs)
keep-after since [] = tt
keep-after since (x ∷ xs) = elim (Bool-cases (after since x)) [
  | inl e ↦ rw e (ltb→lt since x.0 e, keep-after since xs)
  | inr e ↦ rw e (keep-after since xs)
]

pub All-keep :
    (P : ℕ × Change → Type 0) (since : ℕ) (xs : List (ℕ × Change))
    → All P xs
    → All P (keep (after since) xs)
All-keep P since [] h = tt
All-keep P since (x ∷ xs) h = elim (Bool-cases (after since x)) [
  | inl e ↦ rw e (h.0, All-keep P since xs h.1)
  | inr e ↦ rw e (All-keep P since xs h.1)
]

pub keep-IsStrict :
    (since : ℕ) (xs : List (ℕ × Change)) → IsStrict xs → IsStrict (keep (after since) xs)
keep-IsStrict since [] h = tt
keep-IsStrict since (x ∷ xs) h = elim (Bool-cases (after since x)) [
  | inl e ↦ rw e (All-keep (λ d. x.0 < d.0) since xs h.0, keep-IsStrict since xs h.1)
  | inr e ↦ rw e (keep-IsStrict since xs h.1)
]
