-- ===== src/Net/Session/Framing.antt =====
-- The frames of hNet/td.go and hNet/websocketHandler.go.
use happy.Base.{ℕ, ◌+◌, ◌*◌, ◌/◌, ◌%◌, ◌^◌, ◌<◌, ◌≡◌, ap, some, List, arith}
use happy.Net.Session.{write_message, decode}

bytes_join :
    (v : ℕ)
    → v < 2 ^ 32
    → ((v / 16777216 % 256 * 256 + v / 65536 % 256) * 256 + v / 256 % 256) * 256 + v % 256 ≡ v
bytes_join v h = omega arith

-- A message that WriteMessage has framed with a message type of 32 bits is decoded to that type and that message.
pub decode-write_message :
    (message_type : ℕ) (message : List ℕ)
    → message_type < 2 ^ 32
    → decode (write_message message_type message) ≡ some (message_type, message)
unfolding decode write_message
decode-write_message v message h = ap (λ t. some (t, message)) (bytes_join v h)
