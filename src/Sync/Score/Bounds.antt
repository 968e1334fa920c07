-- ===== src/Sync/Score/Bounds.antt =====
-- Bounds on change scores.
use cnaas_nms.Prelude.{
  ℕ, zero, suc, ◌+◌, ◌*◌, ◌≡◌, ◌≤◌, ◌↔◌, refl, List, [], ◌∷◌, false, any, length, arith,
}
use cnaas_nms.Sync.Score.{Text, split, changes, is_change, count_distinct, calculate_score}

length-split : (sep : ℕ) (t : Text) → 1 ≤ length (split sep t)
unfolding split
length-split sep [] = omega arith
length-split sep (c ∷ t) = ground (arith, length-split sep t)

distinct_pos : (line : Text) (lines : List Text) → 1 ≤ count_distinct (line ∷ lines)
unfolding count_distinct
distinct_pos line [] = omega arith
distinct_pos line (l ∷ lines) = ground (arith, distinct_pos l lines)

changes_none : (lines : List Text) → (changes lines).0 ≡ 0 → (changes lines).1 ≡ 0
unfolding changes
changes_none [] h = refl
changes_none (line ∷ lines) h = ground (arith, changes_none lines)

changes-any : (lines : List Text) → ((changes lines).0 ≡ 0) ↔ (any is_change lines ≡ false)
unfolding changes
changes-any [] = ground arith
changes-any (line ∷ lines) = ground (arith, changes-any lines)

distinct_nonempty : (lines : List Text) → 1 ≤ length lines → 1 ≤ count_distinct lines
unfolding count_distinct
distinct_nonempty [] h = omega arith
distinct_nonempty (l ∷ lines) h = distinct_pos l lines

den_pos : (a b : ℕ) → 1 ≤ a → 1 ≤ b → 1 ≤ 100 * a * b
den_pos zero b h k = omega arith
den_pos (suc a) zero h k = omega arith
den_pos (suc a) (suc b) h k = ground arith

num_zero :
    (changed total config distinct : ℕ)
    → 1 ≤ distinct
    → (changed ≡ 0 → total ≡ 0)
    → ((2000 * changed + 8 * total * config) * distinct ≡ 0) ↔ (changed ≡ 0)
num_zero zero total config zero h z = omega arith
num_zero (suc c) total config zero h z = omega arith
num_zero zero total config (suc d) h z = rw (z refl) (ground arith)
num_zero (suc c) total config (suc d) h z = ground arith

-- A change score has a denominator that is not 0, and it is 0 exactly where the diff has no line
-- that begins with a plus or a minus.
pub calculate_score_zero :
    (config diff : Text)
    → (1 ≤ (calculate_score config diff).den)
      × (((calculate_score config diff).num ≡ 0) ↔ (any is_change (split b'\n' diff) ≡ false))
unfolding calculate_score
calculate_score_zero config diff =
    let lines = split b'\n' diff in
    let c = length-split b'\n' config in
    let d = length-split b'\n' diff in
    (
      den_pos (length (split b'\n' config)) (length lines) c d,
      ground (
        arith,
        changes-any lines,
        num_zero (changes lines).0 (changes lines).1 (length (split b'\n' config))
            (count_distinct lines) (distinct_nonempty lines d) (changes_none lines),
      ),
    )
