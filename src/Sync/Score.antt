-- ===== src/Sync/Score.antt =====
-- src/cnaas_nms/devicehandler/changescore.py. Texts are lists of code points. The regular
-- expressions are `^[+-][ ]*` or `^-[ ]*` and a literal, or `^-[ ]*.*(a|b).*`; the literals begin
-- with no blank, so the blanks are skipped greedily. Scores are exact: modifiers in tenths, the
-- result a fraction.
pub mod Bounds
use cnaas_nms.Prelude.{
  ℕ, zero, suc, ◌+◌, ◌*◌, Bool, true, false, Option, none, some, List, [], ◌∷◌, ◌&&◌, ◌||◌, ◌==◌,
  if◌then◌else◌, length, any,
}
use Prim.Native.Char.{code}
use cnaas_nms.Prelude.{String}

abbrev pub Text : Type 0
Text = List ℕ

abbrev pub codes : String → Text
codes String.[] = []
codes (String.◌∷◌ c s) = code c ∷ codes s

abbrev cons_head : ℕ → List Text → List Text
cons_head c [] = (c ∷ []) ∷ []
cons_head c (line ∷ lines) = (c ∷ line) ∷ lines

-- `text.split(sep)`: never empty.
unfoldable pub split : ℕ → Text → List Text
split sep [] = [] ∷ []
split sep (c ∷ cs) = let rest = split sep cs in if c == sep then [] ∷ rest else cons_head c rest

skip_blanks : Text → Text
skip_blanks [] = []
skip_blanks (c ∷ cs) = let rest = skip_blanks cs in if c == b' ' then rest else c ∷ cs

unfoldable pub starts : Text → Text → Bool
starts [] s = true
starts (c ∷ p) [] = false
starts (c ∷ p) (d ∷ s) = c == d && starts p s

contains : Text → Text → Bool
unfolding starts
contains p [] = starts p []
contains p (c ∷ s) = starts p (c ∷ s) || contains p s

-- The three shapes of a pattern.
pub data Pattern : Type 0 where
  line_start : Text → Pattern
  line_start_remove : Text → Pattern
  line_remove_with : List Text → Pattern

pub matches : Pattern → Text → Bool
unfolding skip_blanks starts contains
matches p [] = false
matches (line_start p) (c ∷ s) = (c == b'+' || c == b'-') && starts p (skip_blanks s)
matches (line_start_remove p) (c ∷ s) = c == b'-' && starts p (skip_blanks s)
matches (line_remove_with ps) (c ∷ s) = c == b'-' && any (λ p. contains p s) ps

-- `change_patterns`, with the modifiers in tenths.
abbrev pub change_patterns : List (Pattern × ℕ)
change_patterns =
    (line_start (codes "description"), 0)
    ∷ (line_start (codes "name"), 0)
    ∷ (line_start (codes "!"), 0)
    ∷ (line_start (codes "dot1x"), 5)
    ∷ (line_start (codes "ntp"), 5)
    ∷ (line_start (codes "snmp"), 5)
    ∷ (line_start (codes "vrf"), 50)
    ∷ (line_remove_with (codes "ip address" ∷ []), 100)
    ∷ (line_start_remove (codes "vlan"), 100)
    ∷ (line_start (codes "spanning-tree mode"), 500)
    ∷ (line_start (codes "spanning-tree"), 50)
    ∷ (line_remove_with (codes "routing" ∷ codes "router" ∷ []), 500)
    ∷ (line_start_remove (codes "neighbor"), 100)
    ∷ (line_start (codes "address-family"), 100)
    ∷ (line_start (codes "redistribute"), 100)
    ∷ []

abbrev pub default_line_score : ℕ
default_line_score = 10

pub score_by : List (Pattern × ℕ) → Text → ℕ
unfolding matches
score_by [] line = default_line_score
score_by ((p, modifier) ∷ ps) line =
    let rest = score_by ps line in if matches p line then modifier else rest

-- `calculate_line_score(line)`, in tenths.
unfoldable pub calculate_line_score : Text → ℕ
unfolding score_by
calculate_line_score line = score_by change_patterns line

-- `line.startswith("+") or line.startswith("-")`
pub is_change : Text → Bool
is_change [] = false
is_change (c ∷ s) = c == b'+' || c == b'-'

-- The loop of `calculate_score`: the changed lines, and their scores in tenths.
pub changes : List Text → ℕ × ℕ
unfolding is_change calculate_line_score
changes [] = (0, 0)
changes (line ∷ lines) =
    let (n, total) = changes lines in
    if is_change line then (n + 1, calculate_line_score line + total) else (n, total)

abbrev text_eq : Text → Text → Bool
text_eq [] [] = true
text_eq [] (d ∷ t) = false
text_eq (c ∷ s) [] = false
text_eq (c ∷ s) (d ∷ t) = c == d && text_eq s t

-- `len(set(lines))`
pub count_distinct : List Text → ℕ
count_distinct [] = 0
count_distinct (line ∷ lines) =
    let rest = count_distinct lines in if any (text_eq line) lines then rest else suc rest

-- A change score, as an exact fraction.
pub record Score : Type 0 where
  pub num : ℕ
  pub den : ℕ

-- `((changed_ratio * 100 * 0.2) + (total_line_score * 0.8)) * unique_ratio`, over the common
-- denominator 100 * len(config_lines) * len(diff_lines), with the total in tenths.
unfoldable pub calculate_score : Text → Text → Score
unfolding split changes count_distinct
calculate_score config diff =
    let config_lines = length (split b'\n' config) in
    let diff_lines = split b'\n' diff in
    let (changed, total) = changes diff_lines in
    record {
      num = (2000 * changed + 8 * total * config_lines) * count_distinct diff_lines;
      den = 100 * config_lines * length diff_lines;
    }
