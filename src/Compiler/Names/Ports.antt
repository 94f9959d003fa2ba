-- ===== src/Compiler/Names/Ports.antt =====
-- names/ports.ts: the ports of the edges, of the references and of agent tool dispatch.
use n8n_libpetri.Prelude.{ℕ, String, Bool, if◌then◌else◌}
use n8n_libpetri.Prelude.Texts.{append, print}

unfoldable pub empty_twin_of : String → String
empty_twin_of name = append name "_empty"

unfoldable pub edge_in_port_of : ℕ → ℕ → String
edge_in_port_of i edge = append "in" (append (print i) (append "_e" (print edge)))

unfoldable consumer_port_of : Bool → ℕ → ℕ → String
consumer_port_of direct i edge = if direct then "in" else edge_in_port_of i edge

unfoldable pub edge_out_port_of : ℕ → String
edge_out_port_of edge = append "out_e" (print edge)

unfoldable pub ref_done_port_of : ℕ → String
ref_done_port_of k = append "ref_" (print k)

unfoldable pub ref_skipped_port_of : ℕ → String
ref_skipped_port_of k = append "refskip_" (print k)

unfoldable pub tool_in_port_of : ℕ → String
tool_in_port_of k = append "tool_" (print k)

unfoldable pub agent_response_port_of : ℕ → String
agent_response_port_of k = append "resp_" (print k)

unfoldable arrived_port_of : ℕ → String
arrived_port_of edge = append "arrived_e" (print edge)

unfoldable successor_live_port_of : String → String
successor_live_port_of id = append "live_" id
