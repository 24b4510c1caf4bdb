-- ===== src/Ipc/Raised.antt =====
-- What the code of python_binding/lsm/_transport.py and _pluginrunner.py raises.
use libstoragemgmt.Base.{String, Bool}
use libstoragemgmt.Data.Value.{Value}

-- `ValueError` with its subclasses (UnicodeError, JSONDecodeError), `AttributeError`, `SocketEOF`,
-- `socket.error` (with whether errno is EPIPE, and its text), `LsmError(code, message, data)`, and any other
-- exception.
pub data Raised : Type 0 where
  value_error attribute_error eof : Raised
  socket_error : (broken_pipe : Bool) (text : String) → Raised
  lsm_error : (code message extra : Value) → Raised
  other_error : Raised

pub data Outcome (A : Type 0) : Type 0 where
  ok : A → Outcome A
  err : Raised → Outcome A
