-- ===== src/Settings/Groups/Primary.antt =====
-- The primary group of a device.
use cnaas_nms.Prelude.{
  ℕ, ◌≡◌, refl, ◌⊎◌, inl, inr, ◌≤◌, String, Bool, true, false, List, [], ◌∷◌, Any, All, arith, ltb,
  mem, some, none, if◌then◌else◌, Bool-cases,
}
use cnaas_nms.Settings.Groups.{
  Group, insert_sorted, sort_priorities, find_primary_group, get_groups, get_groups_priorities,
  get_groups_priorities_sorted, primary_group,
}

abbrev pub IsSorted : List (String × ℕ) → Type 0
IsSorted [] = Unit
IsSorted (x ∷ xs) = All (λ y. y.1 ≤ x.1) xs × IsSorted xs

module _ (P : String × ℕ → Type 0) where
  All-insert :
      (e : String × ℕ) (xs : List (String × ℕ)) → P e → All P xs → All P (insert_sorted e xs)
  unfolding insert_sorted
  All-insert e [] p h = (p, tt)
  All-insert e (x ∷ xs) p h = go (ltb e.1 x.1) (All-insert e xs p h.1)
    where
      go :
          (b : Bool)
          → All P (insert_sorted e xs)
          → All P (if b then x ∷ insert_sorted e xs else e ∷ x ∷ xs)
      go true r = (h.0, r)
      go false r = (p, (h.0, h.1))

  insert-All :
      (e : String × ℕ) (xs : List (String × ℕ)) → All P (insert_sorted e xs) → P e × All P xs
  unfolding insert_sorted
  insert-All e [] h = (h.0, tt)
  insert-All e (x ∷ xs) h = go (ltb e.1 x.1) h (insert-All e xs)
    where
      go :
          (b : Bool)
          → All P (if b then x ∷ insert_sorted e xs else e ∷ x ∷ xs)
          → (All P (insert_sorted e xs) → P e × All P xs)
          → P e × (P x × All P xs)
      go true k r = let (a, b) = r k.1 in (a, (k.0, b))
      go false k r = (k.0, (k.1.0, k.1.1))

  sort-All : (xs : List (String × ℕ)) → All P (sort_priorities xs) → All P xs
  unfolding sort_priorities
  sort-All [] h = tt
  sort-All (x ∷ xs) h = let (a, b) = insert-All x (sort_priorities xs) h in (a, sort-All xs b)

  insert-Any :
      (e : String × ℕ) (xs : List (String × ℕ)) → Any P (insert_sorted e xs) → P e ⊎ Any P xs
  unfolding insert_sorted
  insert-Any e [] (inl p) = inl p
  insert-Any e [] (inr p) = absurd p
  insert-Any e (x ∷ xs) h = go (ltb e.1 x.1) h (insert-Any e xs)
    where
      go :
          (b : Bool)
          → Any P (if b then x ∷ insert_sorted e xs else e ∷ x ∷ xs)
          → (Any P (insert_sorted e xs) → P e ⊎ Any P xs)
          → P e ⊎ (P x ⊎ Any P xs)
      go true (inl k) r = inr (inl k)
      go true (inr k) r = elim (r k) [ inl a ↦ inl a | inr b ↦ inr (inr b) ]
      go false (inl k) r = inl k
      go false (inr k) r = inr k

  sort-Any : (xs : List (String × ℕ)) → Any P (sort_priorities xs) → Any P xs
  unfolding sort_priorities
  sort-Any [] h = h
  sort-Any (x ∷ xs) h = elim (insert-Any x (sort_priorities xs) h) [
    | inl p ↦ inl p
    | inr q ↦ inr (sort-Any xs q)
  ]

weaken : (m n : ℕ) (xs : List (String × ℕ)) → m ≤ n → All (λ y. y.1 ≤ m) xs → All (λ y. y.1 ≤ n) xs
weaken m n [] l h = tt
weaken m n (x ∷ xs) l h = (omega (arith, l, h.0), weaken m n xs l h.1)

insert-IsSorted :
    (e : String × ℕ) (xs : List (String × ℕ)) → IsSorted xs → IsSorted (insert_sorted e xs)
unfolding insert_sorted
insert-IsSorted e [] h = (tt, tt)
insert-IsSorted e (x ∷ xs) h = elim (Bool-cases (ltb e.1 x.1)) [
  | inl lt ↦
      rw lt (All-insert (λ y. y.1 ≤ x.1) e xs (ground (arith, lt)) h.0, insert-IsSorted e xs h.1)
  | inr ge ↦ let le = below e.1 x.1 ge in rw ge ((le, weaken x.1 e.1 xs le h.0), h)
]
  where
    below : (m n : ℕ) → ltb m n ≡ false → n ≤ m
    below m n k = ground arith

sort-IsSorted : (xs : List (String × ℕ)) → IsSorted (sort_priorities xs)
unfolding sort_priorities
sort-IsSorted [] = tt
sort-IsSorted (x ∷ xs) = insert-IsSorted x (sort_priorities xs) (sort-IsSorted xs)

-- No group of the list with a higher priority than `bound` is among the names.
abbrev pub Below : List String → ℕ → List (String × ℕ) → Type 0
Below names bound = All (λ e. mem e.0 names ≡ true → e.1 ≤ bound)

-- What the search answers: no group of the list is among the names, or one of them that is, and none
-- that is has a higher priority.
abbrev pub IsPrimary : List String → List (String × ℕ) → String → Type 0
IsPrimary names priorities answer =
    ((answer ≡ "DEFAULT") × All (λ e. mem e.0 names ≡ false) priorities)
    ⊎ ((bound : ℕ) × (mem answer names ≡ true)
        × Any (λ e. (e.0 ≡ answer) × (e.1 ≡ bound)) priorities
        × Below names bound priorities)

Below-All :
    (names : List String) (n : ℕ) (xs : List (String × ℕ))
    → All (λ y. y.1 ≤ n) xs
    → Below names n xs
Below-All names n [] h = tt
Below-All names n (x ∷ xs) h = (λ m. h.0, Below-All names n xs h.1)

contra : (b : Bool) → b ≡ false → b ≡ true → ⊥
contra b p q = cc

skip_one :
    (names : List String) (name : String) (p : ℕ) (es : List (String × ℕ)) (answer : String)
    → mem name names ≡ false
    → IsPrimary names es answer
    → IsPrimary names ((name, p) ∷ es) answer
skip_one names name p es answer n (inl none_found) = inl (none_found.0, (n, none_found.1))
skip_one names name p es answer n (inr (bound, m, is, below)) =
    inr (bound, m, inr is, (λ k. absurd (contra (mem name names) n k), below))

take_or_skip :
    (names : List String) (name : String) (p : ℕ) (es : List (String × ℕ)) (rest : String)
    (b : Bool)
    → mem name names ≡ b
    → All (λ y. y.1 ≤ p) es
    → IsPrimary names es rest
    → IsPrimary names ((name, p) ∷ es) (if b then name else rest)
take_or_skip names name p es rest true m l h =
    inr (p, m, inl (refl, refl), (λ k. omega arith, Below-All names p es l))
take_or_skip names name p es rest false n l h = skip_one names name p es rest n h

find-IsPrimary :
    (names : List String) (es : List (String × ℕ))
    → IsSorted es
    → IsPrimary names es (find_primary_group names es)
unfolding find_primary_group
find-IsPrimary names [] h = inl (refl, tt)
find-IsPrimary names ((name, p) ∷ es) h =
    take_or_skip names name p es (find_primary_group names es) (mem name names) refl h.0
      (find-IsPrimary names es h.1)

unsorted :
    (names : List String) (es : List (String × ℕ)) (answer : String)
    → IsPrimary names (sort_priorities es) answer
    → IsPrimary names es answer
unsorted names es answer (inl (e, n)) = inl (e, sort-All (λ x. mem x.0 names ≡ false) es n)
unsorted names es answer (inr (bound, m, is, below)) = inr (
  bound,
  m,
  sort-Any (λ e. (e.0 ≡ answer) × (e.1 ≡ bound)) es is,
  sort-All (λ e. mem e.0 names ≡ true → e.1 ≤ bound) es below,
)

-- The primary group of a host is one of its groups with the highest priority, among the groups that
-- have a priority other than 0; it is `DEFAULT` where none of them is a group of the host.
pub primary_group-IsPrimary :
    (re_match : String → String → Bool) (groups : List Group) (hostname : String)
    → IsPrimary
        (get_groups re_match (some hostname) groups)
        (get_groups_priorities re_match none groups [])
        (primary_group re_match groups hostname)
unfolding get_groups_priorities_sorted
primary_group-IsPrimary re_match groups hostname =
    let priorities = get_groups_priorities re_match none groups [] in
    let names = get_groups re_match (some hostname) groups in
    unsorted names priorities (primary_group re_match groups hostname)
      (find-IsPrimary names (sort_priorities priorities) (sort-IsSorted priorities))
