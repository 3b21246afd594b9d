-- ===== src/Channel/Payload.antt =====
-- `impl From<&[u8]>` of channel/src/lib.rs and dtp/src/packet.rs: a packet made from its payload.
use efcp.Prelude.{ℕ, ◌≡◌, List, [], length}
use efcp.Outcome.{ok}
use efcp.Channel.Traits.{BasePacket, IsPacket, from_payload}

-- In a packet layer a payload within the layer's limit makes a packet with that payload.
pub payload-from_payload :
    {P : Type 0} (d : BasePacket P) (Allows : ℕ → Type 0) (xs : List ℕ)
    → IsPacket d Allows
    → Allows (length xs)
    → (p : P) × (from_payload d xs ≡ ok p) × (d.payload p ≡ ok xs)
unfolding from_payload
payload-from_payload d Allows xs layer allowed =
    let (p, made, empty, room) = layer.new_empty (length xs) allowed in
    let (q, put, bytes, _) = layer.put_appends p [] xs empty room in (q, rw (made, put), bytes)
