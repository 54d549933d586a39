-- ===== src/Script/Opcodes.antt =====
-- The opcodes of internal/script/scriptengine.go.
use go_bitcoin.Base.{ℕ}

abbrev pub op_0 : ℕ
op_0 = 0x00

abbrev pub op_pushdata1 : ℕ
op_pushdata1 = 0x4c

abbrev pub op_pushdata2 : ℕ
op_pushdata2 = 0x4d

abbrev pub op_pushdata4 : ℕ
op_pushdata4 = 0x4e

abbrev pub op_1negate : ℕ
op_1negate = 0x4f

abbrev pub op_1 : ℕ
op_1 = 0x51

abbrev pub op_2 : ℕ
op_2 = 0x52

abbrev pub op_3 : ℕ
op_3 = 0x53

abbrev pub op_4 : ℕ
op_4 = 0x54

abbrev pub op_5 : ℕ
op_5 = 0x55

abbrev pub op_6 : ℕ
op_6 = 0x56

abbrev pub op_7 : ℕ
op_7 = 0x57

abbrev pub op_8 : ℕ
op_8 = 0x58

abbrev pub op_9 : ℕ
op_9 = 0x59

abbrev pub op_10 : ℕ
op_10 = 0x5a

abbrev pub op_11 : ℕ
op_11 = 0x5b

abbrev pub op_12 : ℕ
op_12 = 0x5c

abbrev pub op_13 : ℕ
op_13 = 0x5d

abbrev pub op_14 : ℕ
op_14 = 0x5e

abbrev pub op_15 : ℕ
op_15 = 0x5f

abbrev pub op_16 : ℕ
op_16 = 0x60

abbrev pub op_if : ℕ
op_if = 0x63

abbrev pub op_notif : ℕ
op_notif = 0x64

abbrev pub op_else : ℕ
op_else = 0x67

abbrev pub op_endif : ℕ
op_endif = 0x68

abbrev pub op_verify : ℕ
op_verify = 0x69

abbrev pub op_return : ℕ
op_return = 0x6a

abbrev pub op_dup : ℕ
op_dup = 0x76

abbrev pub op_drop : ℕ
op_drop = 0x75

abbrev pub op_2drop : ℕ
op_2drop = 0x6d

abbrev pub op_2dup : ℕ
op_2dup = 0x6e

abbrev pub op_swap : ℕ
op_swap = 0x7c

abbrev pub op_toalstack : ℕ
op_toalstack = 0x6b

abbrev pub op_fromaltstack : ℕ
op_fromaltstack = 0x6c

abbrev pub op_equal : ℕ
op_equal = 0x87

abbrev pub op_equalverify : ℕ
op_equalverify = 0x88

abbrev pub op_not : ℕ
op_not = 0x91

abbrev pub op_add : ℕ
op_add = 0x93

abbrev pub op_sub : ℕ
op_sub = 0x94

abbrev pub op_mul : ℕ
op_mul = 0x95

abbrev pub op_div : ℕ
op_div = 0x96

abbrev pub op_ripemd160 : ℕ
op_ripemd160 = 0xa6

abbrev pub op_sha1 : ℕ
op_sha1 = 0xa7

abbrev pub op_sha256 : ℕ
op_sha256 = 0xa8

abbrev pub op_hash160 : ℕ
op_hash160 = 0xa9

abbrev pub op_hash256 : ℕ
op_hash256 = 0xaa

abbrev pub op_checksig : ℕ
op_checksig = 0xac

abbrev pub op_checksigverify : ℕ
op_checksigverify = 0xad

abbrev pub op_checkmultisig : ℕ
op_checkmultisig = 0xae

abbrev pub op_checklocktimeverify : ℕ
op_checklocktimeverify = 0xb1

abbrev pub op_checksequenceverify : ℕ
op_checksequenceverify = 0xb2
