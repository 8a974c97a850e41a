-- ===== src/Middlewares/LogFilter.antt =====
-- `filterLogs` of svc/node/atoms/cacher/cacher.go: the logs of the stored blocks that a filter keeps.
pub mod Kept
use venn.Prelude.{
  ℕ, zero, suc, ◌+◌, ◌-◌, ◌*◌, String, Bool, true, false, ◌&&◌, ◌||◌, Option, none, some, List, [],
  ◌∷◌, ◌++◌, length, replicate, leb, ◌==◌, if◌then◌else◌, str_eq,
}
use venn.Util.Text.{codes}
use venn.Rpc.{Json, str, arr, obj, Items, nil, cons, Fields, end, field, Hexutil}
use venn.Ethtypes.Logs.{LogAddressTopics, CompiledFilter, check}
use venn.Stores.Blocks.{Entry}

-- A value that is read, an error, or a panic.
pub data Reading (A : Type 0) : Type 0 where
  panicked refused : Reading A
  got : A → Reading A

abbrev pub bind : {A B : Type 0} → Reading A → (A → Reading B) → Reading B
bind panicked f = panicked
bind refused f = refused
bind (got a) f = f a

abbrev pub is_digit : ℕ → Bool
is_digit c = (leb b'0' c && leb c b'9') || (leb b'a' c && leb c b'f') || (leb b'A' c && leb c b'F')

abbrev pub digit : ℕ → ℕ
digit c = if leb c b'9' then c - b'0' else if leb c b'F' then c - b'A' + 10 else c - b'a' + 10

-- `hex.Decode` into an array with this room: past its end it panics.
unfoldable pub hex_decode : List ℕ → ℕ → Reading (List ℕ)
hex_decode [] room = got []
hex_decode (c ∷ []) room = refused
hex_decode (c ∷ d ∷ s) zero = if is_digit c && is_digit d then panicked else refused
hex_decode (c ∷ d ∷ s) (suc room) =
    let rest = bind (hex_decode s room) (λ bytes. got ((digit c * 16 + digit d) ∷ bytes)) in
    if is_digit c && is_digit d then rest else refused

abbrev pub trim_prefix : List ℕ → List ℕ
trim_prefix (c ∷ d ∷ s) = if (c == b'0') && (d == b'x') then s else c ∷ d ∷ s
trim_prefix s = s

abbrev pub padded : ℕ → Reading (List ℕ) → Reading (List ℕ)
padded n panicked = panicked
padded n refused = got (replicate n 0)
padded n (got bytes) = got (bytes ++ replicate (n - length bytes) 0)

-- `rawStrToAddress` and `rawStrToHash`: the array of `n` bytes.
unfoldable pub raw_bytes : ℕ → List ℕ → Reading (List ℕ)
unfolding hex_decode
raw_bytes n s = padded n (hex_decode (trim_prefix s) n)

module _ (hex : Hexutil) where
  unfoldable pub read_address : Json → Reading hex.Address
  unfolding raw_bytes
  read_address (str s) = bind (raw_bytes 20 (codes s)) (λ b. got (hex.bytes_to_address b))
  read_address _ = refused

  unfoldable pub read_hash : Json → Reading hex.Hash
  unfolding raw_bytes
  read_hash (str s) = bind (raw_bytes 32 (codes s)) (λ b. got (hex.bytes_to_hash b))
  read_hash _ = refused

  unfoldable pub read_hashes : Items → List hex.Hash → Reading (List hex.Hash)
  unfolding read_hash
  read_hashes nil hs = got hs
  read_hashes (cons t ts) hs = bind (read_hash t) (λ h. read_hashes ts (hs ++ (h ∷ [])))

  unfoldable pub read_topics : Json → List hex.Hash → Reading (List hex.Hash)
  unfolding read_hashes
  read_topics (arr ts) hs = read_hashes ts hs
  read_topics _ hs = refused

  -- The loop over the fields of a log.
  unfoldable pub scan_log :
      Fields
      → LogAddressTopics hex.Address hex.Hash
      → Reading (LogAddressTopics hex.Address hex.Hash)
  scan_log end l = got l
  scan_log (field k v fs) l =
      let as_address = bind (read_address v) (λ a. scan_log fs (record l { address = a })) in
      let as_topics =
        bind (read_topics v l.topics) (λ ts. scan_log fs (record l { topics = ts })) in
      let rest = scan_log fs l in
      if str_eq k "address" then as_address else if str_eq k "topics" then as_topics else rest

  abbrev pub no_header : LogAddressTopics hex.Address hex.Hash
  no_header = record { address = hex.bytes_to_address (replicate 20 0); topics = [] }

  unfoldable pub read_log : Json → Reading (LogAddressTopics hex.Address hex.Hash)
  unfolding scan_log
  read_log (obj fs) = scan_log fs no_header
  read_log _ = refused

  module _ (dec_a : Discrete hex.Address) (dec_h : Discrete hex.Hash)
      (filter : Option (CompiledFilter hex.Address hex.Hash)) where
    abbrev pub put_log :
        Json → LogAddressTopics hex.Address hex.Hash → Reading (List Json) → Reading (List Json)
    put_log log header rest =
        let more = bind rest (λ logs. got (log ∷ logs)) in
        if check dec_a dec_h filter header then more else rest

    -- The loops over the logs of an entry and over the entries, with what is written after them.
    unfoldable pub filter_items : Items → Reading (List Json) → Reading (List Json)
    unfolding read_log
    filter_items nil rest = rest
    filter_items (cons log logs) rest =
        bind (read_log log) (λ header. put_log log header (filter_items logs rest))

    abbrev pub filter_value : Json → Reading (List Json) → Reading (List Json)
    filter_value (arr logs) rest = filter_items logs rest
    filter_value _ rest = refused

    unfoldable pub filter_entries : List (Entry hex.Hash) → Reading (List Json)
    unfolding filter_items
    filter_entries [] = got []
    filter_entries (e ∷ entries) = filter_value e.value (filter_entries entries)
