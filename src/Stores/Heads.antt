-- ===== src/Stores/Heads.antt =====
-- The few fields that svc/node/atoms/cacher/cacher.go and
-- svc/node/stores/vennstores/chainblock/module.go decode of a block or a log.
use venn.Prelude.{ℕ, String, Bool, false, Option, none, some, if◌then◌else◌}
use venn.Rpc.{Json, null, arr, obj, nil, cons, Fields, end, field, Hexutil}
use venn.Ethtypes.Filter.{key_is}

-- The names of the fields of the struct, of which two can be missing.
pub record Keys : Type 0 where
  pub hash : String
  pub number : Option String
  pub parent : Option String

pub record Head (H : Type 0) : Type 0 where
  pub block_hash : H
  pub block_number : ℕ
  pub parent_hash : H

abbrev pub names : Option String → String → Bool
names none k = false
names (some name) k = key_is name k

module _ (hex : Hexutil) (keys : Keys) where
  abbrev pub no_head : Head hex.Hash
  no_head = record { block_hash = hex.zero_hash; block_number = 0; parent_hash = hex.zero_hash }

  abbrev pub set_head :
      {A : Type 0} → Option A → (A → Option (Head hex.Hash)) → Option (Head hex.Hash)
  set_head none f = none
  set_head (some a) f = f a

  unfoldable pub scan_head : Fields → Head hex.Hash → Option (Head hex.Hash)
  scan_head end h = some h
  scan_head (field k v fs) h =
      let as_hash =
        set_head (hex.decode_hash v) (λ x. scan_head fs (record h { block_hash = x })) in
      let as_number =
        set_head (hex.decode_uint64 v) (λ n. scan_head fs (record h { block_number = n })) in
      let as_parent =
        set_head (hex.decode_hash v) (λ x. scan_head fs (record h { parent_hash = x })) in
      let rest = scan_head fs h in
      if key_is keys.hash k
      then as_hash
      else if names keys.number k
      then as_number
      else if names keys.parent k
      then as_parent
      else rest

  unfoldable pub read_head : Json → Option (Head hex.Hash)
  unfolding scan_head
  read_head null = some no_head
  read_head (obj fs) = scan_head fs no_head
  read_head _ = none

  -- Decoding into an array of one struct: what is missing stays zero, what is more is not read.
  unfoldable pub read_first : Json → Option (Head hex.Hash)
  unfolding read_head
  read_first null = some no_head
  read_first (arr nil) = some no_head
  read_first (arr (cons j js)) = read_head j
  read_first _ = none
