-- ===== src/Prelude/Codes.antt =====
-- The return codes of include/fenice/utils.h.
pub data Code : Type 0 where
  err_noerror err_generic err_not_found err_parse err_alloc err_input_param : Code
  err_not_sd err_unsupported_pt err_eof err_fatal err_connection_close : Code
