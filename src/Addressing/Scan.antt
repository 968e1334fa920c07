-- ===== src/Addressing/Scan.antt =====
-- The two loops over addresses.
use cnaas_nms.Prelude.{
  ℕ, zero, suc, ◌+◌, ◌*◌, ◌≡◌, ◌≤◌, ◌<◌, refl, ◌⊎◌, inl, inr, Bool-cases, is_some, Bool, true,
  false, none, some, arith, if◌then◌else◌,
}
use cnaas_nms.Addressing.{first_free, first_link}

le_split : (a y : ℕ) → a ≤ y → (a ≡ y) ⊎ (a < y)
le_split a y l = ground arith

-- What is found is in the range and free, and all addresses before it are taken.
pub first_free_sound :
    (p : ℕ → Bool) (a count x : ℕ)
    → first_free p a count ≡ some x
    → (a ≤ x) × (x < a + count) × (p x ≡ false) × ((y : ℕ) → a ≤ y → y < x → p y ≡ true)
unfolding first_free
first_free_sound p a zero x h = cc
first_free_sound p a (suc count) x h = elim (Bool-cases (p a)) [
  | inl e ↦
      let rest = first_free_sound p (a + 1) count x (ground arith) in
      (
        ground (arith, rest.0),
        ground (arith, rest.1),
        rest.2,
        λ y l u. elim (le_split a y l) [
          | inl same ↦ rw⁻¹ same e
          | inr more ↦ rest.3 y (ground arith) u
        ],
      )
  | inr e ↦ (ground arith, ground arith, ground arith, λ y l u. ground arith)
]

-- Where nothing is found, all addresses of the range are taken.
pub first_free-none :
    (p : ℕ → Bool) (a count : ℕ)
    → first_free p a count ≡ none
    → (y : ℕ) → a ≤ y
    → y < a + count
    → p y ≡ true
unfolding first_free
first_free-none p a zero h y l u = ground arith
first_free-none p a (suc count) h y l u = elim (Bool-cases (p a)) [
  | inl e ↦ elim (le_split a y l) [
    | inl same ↦ rw⁻¹ same e
    | inr more ↦ first_free-none p (a + 1) count (ground arith) y (ground arith) (ground arith)
  ]
  | inr e ↦ ground arith
]

-- The number of free networks among `count` ones from `base` on.
abbrev pub free_links : (ℕ → Bool) → (base count : ℕ) → ℕ
free_links p base zero = 0
free_links p base (suc count) =
    let rest = free_links p (base + 2) count in if p base then rest else suc rest

-- What the search for a linknet finds is free, it lies an even number of addresses into the network,
-- and exactly `offset` free ones come before it.
pub first_link_sound :
    (p : ℕ → Bool) (offset base count x : ℕ)
    → first_link p offset base count ≡ some x
    → (n : ℕ) × (x ≡ base + 2 * n) × (n < count) × (p x ≡ false) × (free_links p base n ≡ offset)
unfolding first_link
first_link_sound p offset base zero x h = cc
first_link_sound p zero base (suc count) x h = elim (Bool-cases (p base)) [
  | inl e ↦
      let (n, at, below, free, before) =
        first_link_sound p zero (base + 2) count x (ground arith) in
      (suc n, ground arith, ground arith, free, ground arith)
  | inr e ↦ (0, ground arith, ground arith, ground arith, refl)
]
first_link_sound p (suc offset) base (suc count) x h = elim (Bool-cases (p base)) [
  | inl e ↦
      let (n, at, below, free, before) =
        first_link_sound p (suc offset) (base + 2) count x (ground arith) in
      (suc n, ground arith, ground arith, free, ground arith)
  | inr e ↦
      let (n, at, below, free, before) =
        first_link_sound p offset (base + 2) count x (ground arith) in
      (suc n, ground arith, ground arith, free, ground arith)
]

-- The search for a linknet finds one wherever more than `offset` networks of the range are free.
pub first_link_total :
    (p : ℕ → Bool) (offset base count : ℕ)
    → offset < free_links p base count
    → is_some (first_link p offset base count) ≡ true
unfolding first_link
first_link_total p offset base zero h = ground arith
first_link_total p zero base (suc count) h =
    ground (arith, first_link_total p zero (base + 2) count)
first_link_total p (suc offset) base (suc count) h = ground (
  arith,
  first_link_total p (suc offset) (base + 2) count,
  first_link_total p offset (base + 2) count,
)
