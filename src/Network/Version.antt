-- ===== src/Network/Version.antt =====
-- internal/network/version.go. An int32 or int64 is its bit pattern.
use go_bitcoin.Base.{ℕ, Bool, false, List, [], ◌∷◌, ◌++◌, length, reverse, if◌then◌else◌}
use go_bitcoin.Base.{Result, ok, ◌>>=◌}
use go_bitcoin.Base.Bytes.{le_encode, le_decode, read_full}
use go_bitcoin.Encoding.VarInt.{encode_var_int}

pub record NetAddr : Type 0 where
  pub services : ℕ
  pub address : List ℕ
  pub port : ℕ

abbrev pub new_net_addr : ℕ → List ℕ → ℕ → NetAddr
new_net_addr services address port = record { services = services; address = address; port = port }

unfoldable pub net_addr_bytes : NetAddr → List ℕ
net_addr_bytes na = le_encode 8 na.services ++ (na.address ++ reverse (le_encode 2 na.port))

pub record VersionMessage : Type 0 where
  pub version : ℕ
  pub services : ℕ
  pub time_stamp : ℕ
  pub sender_addr : NetAddr
  pub receiver_addr : NetAddr
  pub nonce : ℕ
  pub user_agent : List ℕ
  pub latest_block : ℕ
  pub relay : Bool

-- `[16]byte{}`
abbrev pub no_address : List ℕ
no_address = 0 ∷ 0 ∷ 0 ∷ 0 ∷ 0 ∷ 0 ∷ 0 ∷ 0 ∷ 0 ∷ 0 ∷ 0 ∷ 0 ∷ 0 ∷ 0 ∷ 0 ∷ 0 ∷ []

-- "/programmingbitcoin:0.1/"
abbrev pub default_user_agent : List ℕ
default_user_agent =
    47 ∷ 112 ∷ 114 ∷ 111 ∷ 103 ∷ 114 ∷ 97 ∷ 109 ∷ 109 ∷ 105 ∷ 110 ∷ 103 ∷ 98 ∷ 105 ∷ 116 ∷ 99 ∷ 111
    ∷ 105 ∷ 110 ∷ 58 ∷ 48 ∷ 46 ∷ 49 ∷ 47 ∷ []

-- The clock, the random number and the 16 bytes of the address are arguments.
unfoldable pub default_version_message : ℕ → ℕ → List ℕ → ℕ → VersionMessage
default_version_message now random addr port = record {
  version = 70015;
  services = 8;
  time_stamp = now;
  sender_addr = new_net_addr 0 no_address port;
  receiver_addr = new_net_addr 0 addr port;
  nonce = random;
  user_agent = default_user_agent;
  latest_block = 0;
  relay = false;
}

unfoldable pub serialize : VersionMessage → Result (List ℕ)
unfolding net_addr_bytes
serialize vm = do
  agent_len ← encode_var_int (length vm.user_agent)
  ok (
      le_encode 4 vm.version
      ++ (le_encode 8 vm.services
          ++ (le_encode 8 vm.time_stamp
              ++ (net_addr_bytes vm.receiver_addr
                  ++ (net_addr_bytes vm.sender_addr
                      ++ (le_encode 8 vm.nonce
                          ++ (agent_len
                              ++ (vm.user_agent
                                  ++ (le_encode 4 vm.latest_block
                                      ++ ((if vm.relay then 1 else 0) ∷ []))))))))))

-- What ParseVersionMessage does not read keeps the zero of its type.
unfoldable pub parse_version_message : List ℕ → Result (VersionMessage × List ℕ)
parse_version_message bs = do
  (version, bs1) ← read_full 4 bs
  (services, rest) ← read_full 8 bs1
  ok (
    record {
      version = le_decode version;
      services = le_decode services;
      time_stamp = 0;
      sender_addr = new_net_addr 0 no_address 0;
      receiver_addr = new_net_addr 0 no_address 0;
      nonce = 0;
      user_agent = [];
      latest_block = 0;
      relay = false;
    },
    rest,
  )
