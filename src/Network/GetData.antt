-- ===== src/Network/GetData.antt =====
-- internal/network/getdata.go: the request for transactions and blocks by their hashes.
use go_bitcoin.Base.{ℕ, List, [], ◌∷◌, ◌++◌, length, Result, ok, ◌>>=◌}
use go_bitcoin.Base.Bytes.{le_encode}
use go_bitcoin.Base.Codes.{write_many}
use go_bitcoin.Encoding.VarInt.{encode_var_int}

-- The numbers of the data types, from DATA_TYPE_ERROR on
abbrev pub data_type_error : ℕ
data_type_error = 0

abbrev pub data_type_tx : ℕ
data_type_tx = 1

abbrev pub data_type_block : ℕ
data_type_block = 2

abbrev pub data_type_filtered_block : ℕ
data_type_filtered_block = 3

abbrev pub data_type_cmpct_block : ℕ
data_type_cmpct_block = 4

pub record DataItem : Type 0 where
  pub data_type : ℕ
  pub identifier : List ℕ

pub record GetDataMessage : Type 0 where
  pub items : List DataItem

unfoldable pub new_get_data_message : GetDataMessage
new_get_data_message = record { items = [] }

unfoldable pub add_data : ℕ → List ℕ → GetDataMessage → GetDataMessage
add_data d_type id gd = record {
  items = gd.items ++ (record { data_type = d_type; identifier = id } ∷ []);
}

unfoldable pub item_bytes : DataItem → List ℕ
item_bytes item = le_encode 4 item.data_type ++ item.identifier

unfoldable pub serialize : GetDataMessage → Result (List ℕ)
unfolding item_bytes
serialize gd = do
  count ← encode_var_int (length gd.items)
  items ← write_many (λ item. ok (item_bytes item)) gd.items
  ok (count ++ items)
