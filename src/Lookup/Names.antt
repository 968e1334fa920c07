-- ===== src/Lookup/Names.antt =====
-- What a valid host name looks like.
use cnaas_nms.Prelude.{ℕ, zero, suc, ◌+◌, ◌≡◌, ◌≤◌, true, List, [], ◌∷◌, length, arith, All}
use cnaas_nms.Sync.Score.{Text, split}
use cnaas_nms.Lookup.{valid_hostname, valid_part, strip_dot, rest_of_part, all_parts, is_alnum}

rest_of_part-length : (room : ℕ) (s : Text) → rest_of_part room s ≡ true → length s ≤ room + 1
unfolding rest_of_part
rest_of_part-length room [] h = omega arith
rest_of_part-length zero (c ∷ s) h = cc
rest_of_part-length (suc room) (c ∷ []) h = omega arith
rest_of_part-length (suc room) (c ∷ d ∷ []) h = omega arith
rest_of_part-length (suc room) (c ∷ d ∷ e ∷ s) h =
    ground (arith, rest_of_part-length room (d ∷ e ∷ s))

-- A part begins with a letter or a digit and has at most 64 characters.
abbrev pub IsLabel : Text → Type 0
IsLabel [] = ⊥
IsLabel (c ∷ s) = (is_alnum c ≡ true) × (length s ≤ 63)

valid_part-IsLabel : (part : Text) → valid_part part ≡ true → IsLabel part
unfolding valid_part
valid_part-IsLabel [] h = cc
valid_part-IsLabel (c ∷ []) h = ground arith
valid_part-IsLabel (c ∷ d ∷ s) h = ground (arith, rest_of_part-length 62 (d ∷ s))

all_parts-IsLabel : (parts : List Text) → all_parts parts ≡ true → All IsLabel parts
all_parts-IsLabel [] h = tt
all_parts-IsLabel (part ∷ parts) h =
    (valid_part-IsLabel part (ground arith), all_parts-IsLabel parts (ground arith))

-- A valid host name has, without the dot at its end, between 1 and 253 characters, and each of its
-- parts begins with a letter or a digit and has at most 64 characters: 63, and a newline.
pub valid_hostname-IsLabel :
    (hostname : Text)
    → valid_hostname hostname ≡ true
    → (1 ≤ length (strip_dot hostname))
      × (length (strip_dot hostname) ≤ 253)
      × All IsLabel (split b'.' (strip_dot hostname))
unfolding valid_hostname
valid_hostname-IsLabel hostname h =
    (ground arith, ground arith, all_parts-IsLabel (split b'.' (strip_dot hostname)) (ground arith))
