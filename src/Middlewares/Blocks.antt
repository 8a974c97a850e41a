-- ===== src/Middlewares/Blocks.antt =====
-- What clients get of a block: `removeTransactionDetails` of svc/node/atoms/cacher/cacher.go and
-- `removeTransactions` of svc/node/atoms/subcenter/component.go. `none` is an error of the reader.
pub mod Stripped
use venn.Prelude.{String, Option, none, some, str_eq, if◌then◌else◌}
use venn.Rpc.{Json, arr, obj, Items, nil, cons, Fields, end, field}
use venn.Ethtypes.Filter.{option_map}

-- The values under `hash` of one transaction, before those of the later ones.
unfoldable pub hashes_in : Fields → Items → Items
hashes_in end rest = rest
hashes_in (field k v fs) rest =
    let more = hashes_in fs rest in if str_eq k "hash" then cons v more else more

unfoldable pub hashes : Items → Option Items
unfolding hashes_in
hashes nil = some nil
hashes (cons (obj tx) txs) = option_map (hashes_in tx) (hashes txs)
hashes (cons _ txs) = none

unfoldable pub hashes_of : Json → Option Json
unfolding hashes
hashes_of (arr txs) = option_map arr (hashes txs)
hashes_of _ = none

abbrev pub put_field : String → Option Json → Option Fields → Option Fields
put_field k none fs = none
put_field k (some v) fs = option_map (field k v) fs

-- `removeTransactionDetails`
unfoldable pub strip_fields : Fields → Option Fields
unfolding hashes_of
strip_fields end = some end
strip_fields (field k v fs) =
    put_field k (if str_eq k "transactions" then hashes_of v else some v) (strip_fields fs)

unfoldable pub remove_details : Json → Option Json
unfolding strip_fields
remove_details (obj fs) = option_map obj (strip_fields fs)
remove_details _ = none

-- `removeTransactions`
unfoldable pub drop_transactions : Fields → Fields
drop_transactions end = end
drop_transactions (field k v fs) =
    let rest = drop_transactions fs in if str_eq k "transactions" then rest else field k v rest

unfoldable pub remove_transactions : Json → Option Json
unfolding drop_transactions
remove_transactions (obj fs) = some (obj (drop_transactions fs))
remove_transactions _ = none
