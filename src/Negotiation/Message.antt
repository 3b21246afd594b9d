-- ===== src/Negotiation/Message.antt =====
-- The messages of efcp/src/negotiation.rs.
use efcp.Text.{Str}

pub data Message : Type 0 where
  propose : Str → Message
  accept : Message
  fail : Message
