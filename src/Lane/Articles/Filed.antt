-- ===== src/Lane/Articles/Filed.antt =====
-- What is filed under a key, and that Look finds it.
use wird.Prelude.{
  ◌≡◌, refl, sym, ap, subst, ◌∙◌, true, false, Bool-cases, ◌⊎◌, inl, inr, arith, List, [], ◌∷◌,
  ◌++◌, take, Option, none, some, ◌==◌, nat_eq, list_eq, list_beq_iff, if◌then◌else◌,
}
use wird.Prelude.Map.{Map, get, get-put}
use wird.Text.{Word, is_empty, trim_space}
use wird.Lane.Tables.{filed_elsewhere}
use wird.Lane.Articles.{
  fold, arabic, raw_key, Division, appended, append_prose, is_dropped, under_arabic, keys_loop,
  keys_of, articles_loop, articles, How, has_article, by_heading, by_two, by_shape, look,
}

-- What one key of a division is filed under: itself, and its Arabic spelling where it has one.
abbrev pub filed_under_key : Word → Word → List (Word × Word)
filed_under_key prose key =
    if is_dropped key
    then []
    else (raw_key ++ key, prose)
      ∷ (if is_empty (arabic key) then [] else (fold (arabic key), prose) ∷ [])

abbrev pub filed_keys : Word → List Word → List (Word × Word)
filed_keys prose [] = []
filed_keys prose (k ∷ keys) = filed_under_key prose (trim_space k) ++ filed_keys prose keys

-- All that is filed, key by key.
abbrev pub filings : List Division → List (Word × Word)
filings [] = []
filings (d ∷ divisions) = filed_keys d.prose (keys_of d) ++ filings divisions

-- The prose that is filed under a key, each piece after a space, onto what is there.
abbrev pub gathered : Word → Option Word → List (Word × Word) → Option Word
gathered key text [] = text
gathered key text ((k, prose) ∷ filed) =
    gathered key (if k == key then some (appended text prose) else text) filed

gathered-append :
    (key : Word) (text : Option Word) (xs ys : List (Word × Word))
    → gathered key text (xs ++ ys) ≡ gathered key (gathered key text xs) ys
gathered-append key text [] ys = refl
gathered-append key text ((k, prose) ∷ xs) ys =
    gathered-append key (if k == key then some (appended text prose) else text) xs ys

get-append_prose :
    (out : Map Word Word) (k prose key : Word)
    → get (append_prose out k prose) key
      ≡ (if k == key then some (appended (get out key) prose) else get out key)
unfolding append_prose
get-append_prose out k prose key =
    get-put out k key (appended (get out k) prose) ∙ at_key (Bool-cases (k == key))
  where
    at_key :
        (((k == key) ≡ true) ⊎ ((k == key) ≡ false))
        → (if k == key then some (appended (get out k) prose) else get out key)
          ≡ (if k == key then some (appended (get out key) prose) else get out key)
    at_key (inl e) = rw e (ap (λ i. some (appended (get out i) prose)) ((list_beq_iff k key).0 e))
    at_key (inr e) = rw e refl

get-under_arabic :
    (out : Map Word Word) (prose ar key : Word)
    → get (under_arabic out prose ar) key
      ≡ gathered key (get out key) (if is_empty ar then [] else (fold ar, prose) ∷ [])
get-under_arabic out prose ar key = elim (Bool-cases (is_empty ar)) [
  | inl e ↦ rw e refl
  | inr e ↦ rw e (get-append_prose out (fold ar) prose key)
]

-- The map after one key of a division.
abbrev after_key : Map Word Word → Word → Word → Map Word Word
after_key out prose k =
    if is_dropped k
    then out
    else under_arabic (append_prose out (raw_key ++ k) prose) prose (arabic k)

get-after_key :
    (out : Map Word Word) (prose k key : Word)
    → get (after_key out prose k) key ≡ gathered key (get out key) (filed_under_key prose k)
get-after_key out prose k key = elim (Bool-cases (is_dropped k)) [
  | inl e ↦ rw e refl
  | inr e ↦ rw e (
      get-under_arabic (append_prose out (raw_key ++ k) prose) prose (arabic k) key
      ∙ ap (λ o. gathered key o (if is_empty (arabic k) then [] else (fold (arabic k), prose) ∷ []))
          (get-append_prose out (raw_key ++ k) prose key))
]

get-keys_loop :
    (prose : Word) (out : Map Word Word) (keys : List Word) (key : Word)
    → get (keys_loop prose out keys) key ≡ gathered key (get out key) (filed_keys prose keys)
unfolding keys_loop
get-keys_loop prose out [] key = refl
get-keys_loop prose out (k ∷ keys) key =
    get-keys_loop prose (after_key out prose (trim_space k)) keys key
    ∙ ap (λ o. gathered key o (filed_keys prose keys)) (get-after_key out prose (trim_space k) key)
    ∙ sym (
        gathered-append key (get out key) (filed_under_key prose (trim_space k))
          (filed_keys prose keys))

get-articles_loop :
    (out : Map Word Word) (divisions : List Division) (key : Word)
    → get (articles_loop out divisions) key ≡ gathered key (get out key) (filings divisions)
unfolding articles_loop
get-articles_loop out [] key = refl
get-articles_loop out (d ∷ divisions) key =
    get-articles_loop (keys_loop d.prose out (keys_of d)) divisions key
    ∙ ap (λ o. gathered key o (filings divisions)) (get-keys_loop d.prose out (keys_of d) key)
    ∙ sym (gathered-append key (get out key) (filed_keys d.prose (keys_of d)) (filings divisions))

-- Under a key stands the prose of every division that is filed under it, in order, each piece after a
-- space, and nothing where none is.
pub articles_exact :
    (divisions : List Division) (key : Word)
    → get (articles divisions) key ≡ gathered key none (filings divisions)
unfolding get
articles_exact divisions key = get-articles_loop [] divisions key

by_shape-take : (f key : Word) (how : How) → by_shape f ≡ some (key, how) → key ≡ take 2 f
by_shape-take (a ∷ b ∷ c ∷ []) key how e = ground (arith, e)
by_shape-take (a ∷ b ∷ c ∷ d ∷ []) key how e = ground (arith, e)
by_shape-take [] key how e = cc
by_shape-take (a ∷ []) key how e = cc
by_shape-take (a ∷ b ∷ []) key how e = cc
by_shape-take (a ∷ b ∷ c ∷ d ∷ x ∷ f) key how e = cc

by_two-found :
    (arts : Map Word Word) (f key : Word) (how : How)
    → by_two arts f ≡ some (key, how)
    → has_article arts key ≡ true
by_two-found arts f key how e = elim (Bool-cases (has_article arts (take 2 f))) [
  | inl there ↦
      let shape : by_shape f ≡ some (key, how) = ground (arith, e, there) in
      subst (λ k. has_article arts k ≡ true) (sym (by_shape-take f key how shape)) there
  | inr not_there ↦ ground (arith, e, not_there)
]

by_heading-found :
    (arts : Map Word Word) (f key : Word) (how : How) (o : Option Word)
    → by_heading arts f o ≡ some (key, how)
    → has_article arts key ≡ true
by_heading-found arts f key how none e = by_two-found arts f key how e
by_heading-found arts f key how (some k) e = elim (Bool-cases (has_article arts (raw_key ++ k))) [
  | inl there ↦
      let same : raw_key ++ k ≡ key = ground (arith, e, there) in
      subst (λ x. has_article arts x ≡ true) same there
  | inr not_there ↦
      let later : by_two arts f ≡ some (key, how) = ground (arith, e, not_there) in
      by_two-found arts f key how later
]

-- What Look answers is a key with an article.
pub look_found :
    (arts : Map Word Word) (root key : Word) (how : How)
    → look arts root ≡ some (key, how)
    → has_article arts key ≡ true
unfolding look
look_found arts root key how e = elim (Bool-cases (has_article arts (fold root))) [
  | inl there ↦
      let same : fold root ≡ key = ground (arith, e, there) in
      subst (λ x. has_article arts x ≡ true) same there
  | inr not_there ↦
      let later : by_heading arts (fold root) (get filed_elsewhere (fold root)) ≡ some (key, how) =
        ground (arith, e, not_there) in
      by_heading-found arts (fold root) key how (get filed_elsewhere (fold root)) later
]
