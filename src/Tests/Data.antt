-- ===== src/Tests/Data.antt =====
-- Requests, errors and remotes that the tests share.
use venn.Prelude.{ℕ, true, suc, ◌+◌, some, [], ◌∷◌, ◌==◌, if◌then◌else◌, Bool, false, ◌≢◌, refl}
use venn.Prelude.Int.{pos}
use venn.Rpc.{
  Json, str, arr, obj, nil, end, field, doc, Error, plain, Chain, Request, raw, quantity, sent,
  failed, Handler,
}

abbrev pub mainnet : Chain
mainnet = record {
  name = "mainnet";
  id = pos 1;
  max_block_lookback = pos 0;
  block_time = 12_000_000_000;
  parsed_stalk = true;
  forge_block_receipts = true;
}

abbrev pub request : Request
request = record { method = "eth_blockNumber"; params = doc (arr nil); chain = some mainnet }

-- The block 1,000 of the second 1,700,000,000.
abbrev pub block : Json
block = obj (field "number" (str "0x3e8") (field "timestamp" (str "0x6553f100") end))

-- A remote that counts its calls and answers with the block.
abbrev pub node : Handler ℕ
node r s = (sent (raw block) ∷ [], suc s)

-- A remote that counts its calls and answers every one with the number 1.
abbrev pub counter : Handler ℕ
counter r s = (sent (raw (str "0x1")) ∷ [], suc s)

-- The first remote is down.
abbrev pub remote : ℕ → Handler ℕ
remote i r s =
    if i == 0
    then (failed (plain "connection refused") ∷ [], s + 1)
    else (sent (quantity i) ∷ [], s + 10)

abbrev pub bad_gateway : Error
bad_gateway = record (plain "bad gateway") { http = some 502 }

pub true_ne : true ≢ false
true_ne e = cc

pub false_ne : false ≢ true
false_ne e = cc

-- The hashes and addresses of the tests are truth values.
abbrev pub same_bool : Discrete Bool
same_bool true true = yes refl
same_bool false false = yes refl
same_bool true false = no true_ne
same_bool false true = no false_ne
