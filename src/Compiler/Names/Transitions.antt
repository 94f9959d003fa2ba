-- ===== src/Compiler/Names/Transitions.antt =====
-- names/transitions.ts: the indexed transitions of a gadget.
use n8n_libpetri.Prelude.{ℕ, String, List, [], ◌∷◌, nat_eq, ◌==◌, if◌then◌else◌}
use n8n_libpetri.Prelude.Texts.{append, print}
use n8n_libpetri.Compiler.Names.{Variant, data_variant, empty_variant, variant_text}

unfoldable pub start_unmet_of : ℕ → String
start_unmet_of k = append "start_unmet_" (print k)

unfoldable pub attempt_run_of : ℕ → String
attempt_run_of k = if k == 1 then "run" else append "run_" (print k)

unfoldable pub route_of : ℕ → String
route_of o = append "route_" (print o)

-- The first letter of each variant, joined.
abbrev initials : List Variant → String
initials [] = ""
initials (data_variant ∷ vs) = append "d" (initials vs)
initials (empty_variant ∷ vs) = append "e" (initials vs)

unfoldable pub skip_combination_of : List Variant → String
skip_combination_of vs = append "skip_" (initials vs)

unfoldable pub clear_of : ℕ → String
clear_of i = append "clear_" (print i)

unfoldable pub arm_of : ℕ → Variant → String
arm_of edge v = append "arm_e" (append (print edge) (append "_" (variant_text v)))

unfoldable pub deadline_of : ℕ → String
deadline_of k = append "timeout_" (print k)

unfoldable pub attempt_step_of : ℕ → String
attempt_step_of k = append "attempt_" (print k)

unfoldable pub sink_of : ℕ → String
sink_of o = append "sink_" (print o)
