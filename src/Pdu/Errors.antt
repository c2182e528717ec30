-- ===== src/Pdu/Errors.antt =====
-- The enumeration ResponsePDU.Errors of src/ax_interface/pdu_implementations.py.
use sonic_snmpagent.Prelude.{ℕ}

pub data Errors : Type 0 where
  no_agent_x_error open_failed not_open index_wrong_type index_already_allocated : Errors
  index_none_available index_not_allocated unsupported_context duplicate_registration : Errors
  unknown_registration unknown_agent_caps parse_error request_denied processing_error : Errors
  too_big no_such_name bad_value read_only gen_err no_access wrong_type wrong_length : Errors
  wrong_encoding wrong_value no_creation inconsistent_value resource_unavailable : Errors
  commit_failed undo_failed authorization_error not_writeable inconsistent_name : Errors

abbrev pub error_code : Errors → ℕ
error_code no_agent_x_error = 0
error_code open_failed = 256
error_code not_open = 257
error_code index_wrong_type = 258
error_code index_already_allocated = 259
error_code index_none_available = 260
error_code index_not_allocated = 261
error_code unsupported_context = 262
error_code duplicate_registration = 263
error_code unknown_registration = 264
error_code unknown_agent_caps = 265
error_code parse_error = 266
error_code request_denied = 267
error_code processing_error = 268
error_code too_big = 1
error_code no_such_name = 2
error_code bad_value = 3
error_code read_only = 4
error_code gen_err = 5
error_code no_access = 6
error_code wrong_type = 7
error_code wrong_length = 8
error_code wrong_encoding = 9
error_code wrong_value = 10
error_code no_creation = 11
error_code inconsistent_value = 12
error_code resource_unavailable = 13
error_code commit_failed = 14
error_code undo_failed = 15
error_code authorization_error = 16
error_code not_writeable = 17
error_code inconsistent_name = 18
