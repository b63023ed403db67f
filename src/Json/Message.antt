-- ===== src/Json/Message.antt =====
-- `MCPMessage` of mcptoolkit/include/json/json_msg.h.
use mcptoolkit.Prelude.{ℕ, Bool, false, Option, none, some, [], Bytes, ℤ, pos, take}

-- A pointer is `none` for `nullptr`, and else the suffix of the input at which it points.
pub record Message : Type 0 where
  pub method : Option Bytes
  pub method_len : ℕ
  pub id : Option ℤ
  pub params_start : Option Bytes
  pub params_len : ℕ
  pub result_start : Option Bytes
  pub result_len : ℕ
  pub error_code : ℤ
  pub error_msg : Option Bytes
  pub error_msg_len : ℕ
  pub is_request : Bool
  pub is_response : Bool
  pub has_result : Bool
  pub has_error : Bool
  pub valid : Bool
  pub raw_input : Option Bytes
  pub raw_len : ℕ

-- `MCPMessage()`
abbrev pub blank : Message
blank = record {
  method = none;
  method_len = 0;
  id = none;
  params_start = none;
  params_len = 0;
  result_start = none;
  result_len = 0;
  error_code = pos 0;
  error_msg = none;
  error_msg_len = 0;
  is_request = false;
  is_response = false;
  has_result = false;
  has_error = false;
  valid = false;
  raw_input = none;
  raw_len = 0;
}

-- The bytes of a span: `std::string(start, len)`.
abbrev pub span : Option Bytes → ℕ → Bytes
span none len = []
span (some start) len = take len start
