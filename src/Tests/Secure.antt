-- ===== src/Tests/Secure.antt =====
-- The encryption layer at concrete inputs. The session signs with its key and the nonce, and does not
-- encrypt.
use efcp.Prelude.{ℕ, ◌%◌, ◌^◌, ◌≡◌, refl, List, [], ◌∷◌, ◌++◌, arith, ◌==◌, ◌&&◌, if◌then◌else◌}
use efcp.Outcome.{Outcome, ok, err, panic}
use efcp.Channel.{BasePacket, parse}
use efcp.Channel.Header.{payload_behind}
use efcp.Channel.Buffer.{bytes_packet, bytes_packet-IsPacket}
use efcp.Channel.Loopback.{loopback}
use efcp.Secure.{Disco, DiscoChannel, disco_packet, send, recv}
use efcp.Secure.Layer.{HasFields}
use efcp.Secure.Wire.{recv-send_encrypted, recv_panics}
use efcp.Tests.Instances.{Room, buffers, big_endian}

abbrev pub open_session : ℕ → ℕ → List ℕ → List ℕ → Outcome ℕ (List ℕ)
open_session s n xs (a ∷ b ∷ []) = if (a == s) && (b == n) then ok xs else err 0
open_session s n xs _ = err 0

pub signed : (s t n : ℕ) (xs : List ℕ) → s ≡ t → open_session t n xs (s ∷ n ∷ []) ≡ ok xs
signed s t n xs e = ground arith

abbrev pub signing : Disco
signing = record {
  State = ℕ;
  ReadError = ℕ;
  debug = λ e. "bad tag";
  tag_len = 2;
  write_message = λ s n xs. (xs, s ∷ n ∷ []);
  read_message = open_session;
  Peers = λ s t. s ≡ t;
  length-write_message = λ s n xs. refl;
  length-tag = λ s n xs. refl;
  read-write = signed;
}

abbrev pub plain : BasePacket Room
plain = bytes_packet buffers

abbrev zeros : List ℕ
zeros = 0 ∷ 0 ∷ 0 ∷ 0 ∷ 0 ∷ 0 ∷ 0 ∷ 0 ∷ []

abbrev ping : Room
ping = (zeros ++ ((0 ∷ 0 ∷ []) ++ (7 ∷ 8 ∷ [])), 0)

ping-HasFields :
    HasFields signing big_endian plain
      (bytes_packet-IsPacket buffers)
      ping
      zeros
      (0 ∷ 0 ∷ [])
      (7 ∷ 8 ∷ [])
unfolding bytes_packet
ping-HasFields = record { raw = refl; nonce_long = refl; tag_long = refl }

abbrev one_end : DiscoChannel signing (List Room)
one_end = record { state = 5; channel = []; nonce = 300 }

recv-send_encrypted_example :
    (r : Room) × (a' b' : DiscoChannel signing (List Room)) × (send signing big_endian plain
        loopback ping one_end
      ≡ (ok tt, a'))
    × (recv signing big_endian plain loopback (record one_end { channel = a'.channel })
        ≡ (ok r, b'))
    × (payload_behind plain 10 r ≡ ok (7 ∷ 8 ∷ []))
    × (b'.channel ≡ [])
    × (a'.nonce ≡ 301 % 2 ^ 64)
recv-send_encrypted_example =
    recv-send_encrypted signing big_endian plain (bytes_packet-IsPacket buffers) ping zeros
      (0 ∷ 0 ∷ []) (7 ∷ 8 ∷ []) one_end one_end ping-HasFields (omega arith) refl refl

recv_panics_example :
    (parse (disco_packet signing big_endian plain) (zeros, 0) ≡ ok (zeros, 0))
    × ((recv signing big_endian plain loopback (record one_end { channel = (zeros, 0) ∷ [] })).0
        ≡ panic)
unfolding bytes_packet
recv_panics_example =
    recv_panics signing big_endian plain (record one_end { channel = (zeros, 0) ∷ [] }) (zeros, 0)
      [] zeros refl refl (omega arith) (omega arith)
