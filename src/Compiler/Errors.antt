-- ===== src/Compiler/Errors.antt =====
-- compiler/errors.ts: the codes of the compile errors that the modelled phases throw.
pub data CompileErrorCode : Type 0 where
  unknown_connection_node output_index_out_of_range input_index_out_of_range : CompileErrorCode
  unknown_tool_connection_node tool_main_consumer invalid_count : CompileErrorCode
