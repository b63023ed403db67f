-- ===== src/Security.antt =====
-- The security log: mcptoolkit/include/security_logging.h and mcptoolkit/src/security_logging.cpp. A
-- line is the text that goes to the standard error. The text of `get_timestamp` is an argument.
pub mod Lines
use mcptoolkit.Prelude.{◌∷◌, ◌++◌, [], if◌then◌else◌, Bytes, codes, empty}

pub data SecurityEventCategory : Type 0 where
  parse_error : SecurityEventCategory
  validation_error : SecurityEventCategory
  dispatch_error : SecurityEventCategory
  timed_out : SecurityEventCategory
  session_closed : SecurityEventCategory

unfoldable pub category_to_string : SecurityEventCategory → Bytes
category_to_string parse_error = codes "parse_error"
category_to_string validation_error = codes "validation_error"
category_to_string dispatch_error = codes "dispatch_error"
category_to_string timed_out = codes "timeout"
category_to_string session_closed = codes "session_closed"

-- What `log_security_event` writes.
unfoldable pub log_security_event : Bytes → SecurityEventCategory → Bytes → Bytes → Bytes
unfolding category_to_string
log_security_event timestamp category detail context =
    codes "["
    ++ (timestamp
        ++ (codes "] SECURITY | "
            ++ (category_to_string category
                ++ (codes " | "
                    ++ (detail
                        ++ ((if empty context then [] else codes " | " ++ context)
                            ++ (10 ∷ [])))))))
