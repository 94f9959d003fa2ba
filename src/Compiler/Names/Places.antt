-- ===== src/Compiler/Names/Places.antt =====
-- names/places.ts: the indexed places of a gadget, and the host places named after a node.
use n8n_libpetri.Prelude.{ℕ, String}
use n8n_libpetri.Prelude.Texts.{append, print}
use n8n_libpetri.Compiler.Names.{Variant, variant_text, qualified}

unfoldable in_place_of : String → String
in_place_of id = qualified id "in"

unfoldable arrived_place_of : ℕ → String
arrived_place_of edge = qualified (append "e" (print edge)) "arrived"

unfoldable live_place_of : String → String
live_place_of id = qualified id "live"

unfoldable skipped_place_of : String → String
skipped_place_of id = qualified id "skipped"

unfoldable pub free_of : ℕ → String
free_of i = append "free_" (print i)

unfoldable pub ready_of : ℕ → String
ready_of i = append "ready_" (print i)

unfoldable pub ready_variant_of : ℕ → Variant → String
ready_variant_of i v = append "ready_" (append (print i) (append "_" (variant_text v)))

unfoldable pub hasdata_of : ℕ → String
hasdata_of i = append "hasdata_" (print i)

unfoldable pub ran_of : ℕ → String
ran_of i = append "ran_" (print i)

unfoldable pub nil_of : ℕ → String
nil_of o = append "nil_" (print o)

unfoldable pub ok_of : ℕ → String
ok_of o = append "ok_" (print o)

unfoldable pub routed_of : ℕ → String
routed_of o = append "routed_" (print o)

unfoldable pub running_of : ℕ → String
running_of k = append "running_" (print k)

unfoldable pub failed_of : ℕ → String
failed_of k = append "failed_" (print k)

unfoldable pub timed_out_of : ℕ → String
timed_out_of k = append "timedout_" (print k)
