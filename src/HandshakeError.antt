-- ===== src/HandshakeError.antt =====
-- efcp/src/error.rs. `disco::ReadError` belongs to the disco crate, and is a parameter.
use efcp.Outcome.{IoError}

pub data HandshakeError (ReadError : Type 0) : Type 0 where
  io : IoError → HandshakeError ReadError
  disco : ReadError → HandshakeError ReadError
  protocol_error : HandshakeError ReadError
  negotiation : HandshakeError ReadError
  external_addr : HandshakeError ReadError

-- The two `From` impls.
abbrev pub from_io : {R : Type 0} → IoError → HandshakeError R
from_io e = io e

abbrev pub from_disco : {R : Type 0} → R → HandshakeError R
from_disco e = disco e
