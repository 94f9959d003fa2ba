-- ===== src/Compiler/Names.antt =====
-- compiler/names/: the names of the places and transitions of the flat net, as texts.
pub mod Places
pub mod Ports
pub mod Transitions
use n8n_libpetri.Prelude.{String}
use n8n_libpetri.Prelude.Texts.{append}

-- compiler/types/netmap.ts: the variant of an arm, a ready place or a combination.
pub data Variant : Type 0 where
  data_variant empty_variant : Variant

abbrev pub variant_text : Variant → String
variant_text data_variant = "data"
variant_text empty_variant = "empty"

-- names/qualified.ts: the prefix rule of the flat net.
unfoldable pub qualified : String → String → String
qualified id name = append id (append "/" name)
