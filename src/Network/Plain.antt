-- ===== src/Network/Plain.antt =====
-- The messages whose payload stands as it is: internal/network/pong.go, verack.go and generic.go.
use go_bitcoin.Base.{ℕ, List, []}

pub record PongMessage : Type 0 where
  pub nonce : List ℕ

unfoldable pub pong_bytes : PongMessage → List ℕ
pong_bytes pm = pm.nonce

pub record PingMessage : Type 0 where
  pub nonce : List ℕ

unfoldable pub ping_bytes : PingMessage → List ℕ
ping_bytes pm = pm.nonce

unfoldable pub verack_bytes : List ℕ
verack_bytes = []

pub record GenericMessage : Type 0 where
  pub command : List ℕ
  pub payload : List ℕ

unfoldable pub new_generic_message : List ℕ → List ℕ → GenericMessage
new_generic_message command payload = record { command = command; payload = payload }

unfoldable pub generic_bytes : GenericMessage → List ℕ
generic_bytes g = g.payload
