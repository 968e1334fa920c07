-- ===== src/Repos/Marked.antt =====
-- Files of the global directory.
use cnaas_nms.Prelude.{
  ◌≡◌, refl, ◌⊎◌, inl, inr, Bool, true, false, List, [], ◌∷◌, any, arith, Bool-cases,
}
use cnaas_nms.Repos.{
  Unsynced, Basedir, everywhere, Filename, GroupAnswers, basedir, file_or_all, settings_syncstatus,
  everything, add_file,
}

abbrev pub is_everywhere : Basedir → Bool
is_everywhere everywhere = true
is_everywhere _ = false

abbrev pub is_global : Filename → Bool
is_global f = is_everywhere (basedir f.dir)

file_or_all-everything :
    (b : Basedir) (rest : Unsynced)
    → (is_everywhere b ≡ true) ⊎ (rest ≡ everything)
    → file_or_all b rest ≡ everything
file_or_all-everything everywhere rest h = refl
file_or_all-everything _ rest (inl e) = cc
file_or_all-everything _ rest (inr e) = e

-- A change of any file of the global directory, wherever it stands among the changed files, leaves all
-- access, distribution and core devices unsynchronized, and names no single host.
pub settings_syncstatus-everything :
    (answers : GroupAnswers) (files : List Filename) (u : Unsynced)
    → any is_global files ≡ true
    → settings_syncstatus answers files u ≡ everything
unfolding settings_syncstatus
settings_syncstatus-everything answers [] u h = cc
settings_syncstatus-everything answers (f ∷ files) u h = elim (Bool-cases (is_global f)) [
  | inl e ↦
      file_or_all-everything (basedir f.dir)
        (settings_syncstatus answers files (add_file answers (basedir f.dir) f.second u)) (inl e)
  | inr n ↦
      file_or_all-everything (basedir f.dir)
        (settings_syncstatus answers files (add_file answers (basedir f.dir) f.second u))
        (inr (
          settings_syncstatus-everything answers files (add_file answers (basedir f.dir) f.second u)
            (ground (arith, h, n))))
]
