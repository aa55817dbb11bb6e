-- ===== src/Wire/Server/Reads.antt =====
-- The server reads back what the Bun client's encoder wrote.
use wormdb.Base.{
  ℕ, ◌^◌, ◌<◌, ◌≡◌, refl, sym, ap, ◌∙◌, arith, [], ◌++◌, some, length, map, append-nil,
  append_assoc, All, le→ltb, length-append, take-append, drop-append,
}
use wormdb.Wire.Bytes.{Bytes, be32, be64, of_be32}
use wormdb.Wire.Server.{
  parsed, Command, read_u32, parse_one, read_bytes_field, parse_two, read_u64, ServerItem, finish,
  read_filter,
}
use wormdb.Wire.Command.{ParsedCommand, BulkItem, metric_name}
use wormdb.Text.{encode_utf8}
use wormdb.Wire.Format.{given_filter, plain_bytes, field}

-- What the server should see of a command.
abbrev pub view_item : BulkItem → ServerItem
view_item it = record { key = encode_utf8 it.key; vector = it.vector; timestamp = it.timestamp }

abbrev pub server_view : ParsedCommand → Command
server_view (ParsedCommand.get key) = Command.get (encode_utf8 key)
server_view (ParsedCommand.del key) = Command.delete (encode_utf8 key)
server_view (ParsedCommand.sub channel filter) =
    Command.subscribe (encode_utf8 channel) (given_filter filter)
server_view (ParsedCommand.unsub channel) = Command.unsubscribe (encode_utf8 channel)
server_view ParsedCommand.status = Command.status
server_view ParsedCommand.cluster_status = Command.cluster_status
server_view ParsedCommand.cluster_peers = Command.cluster_peers
server_view (ParsedCommand.set key value worm) =
    Command.set (encode_utf8 key) (encode_utf8 value) worm
server_view (ParsedCommand.publish channel message) =
    Command.publish (encode_utf8 channel) (encode_utf8 message)
server_view (ParsedCommand.exec procedure args) =
    Command.exec (encode_utf8 procedure) (map plain_bytes args)
server_view (ParsedCommand.vinsert c) = Command.vinsert (record {
  key = encode_utf8 c.key;
  vector = c.vector;
  worm = c.worm;
  namespace = encode_utf8 c.namespace;
  metric = encode_utf8 (metric_name c.metric);
  timestamp = c.timestamp;
  is_async = c.is_async;
})
server_view (ParsedCommand.vbulkinsert c) = Command.vbulkinsert (record {
  namespace = encode_utf8 c.namespace;
  metric = encode_utf8 (metric_name c.metric);
  worm = c.worm;
  is_async = c.is_async;
  items = map view_item c.items;
})

-- A BigInt timestamp that setBigUint64 stores unchanged.
abbrev pub Stamps : ParsedCommand → Type 0
Stamps (ParsedCommand.vinsert c) = c.timestamp < 2 ^ 64
Stamps (ParsedCommand.vbulkinsert c) = All (λ it. it.timestamp < 2 ^ 64) c.items
Stamps _ = Unit {0}

pub read_u32-be32 :
    (v : ℕ) (rest : Bytes) → v < 2 ^ 32 → read_u32 (be32 v ++ rest) ≡ parsed (v, rest)
unfolding read_u32 be32 of_be32
read_u32-be32 v rest h = ap (λ k. parsed (k, rest)) (omega arith)

pub read_u64-be64 :
    (v : ℕ) (rest : Bytes) → v < 2 ^ 64 → read_u64 (be64 v ++ rest) ≡ parsed (v, rest)
unfolding read_u64 read_u32 be64 of_be32
read_u64-be64 v rest h = ap (λ k. parsed (k, rest)) (omega arith)

pub read-field :
    (b rest : Bytes) → length b < 2 ^ 32 → read_bytes_field (field b ++ rest) ≡ parsed (b, rest)
unfolding read_bytes_field
read-field b rest h = rw (
  append_assoc (be32 (length b)) b rest,
  read_u32-be32 (length b) (b ++ rest) h,
  le→ltb (length (b ++ rest)) (length b) (omega (arith, length-append b rest)),
  take-append (length b) b rest refl,
  drop-append (length b) b rest refl,
)

-- The last field of a payload.
pub read-field_last : (b : Bytes) → length b < 2 ^ 32 → read_bytes_field (field b) ≡ parsed (b, [])
read-field_last b h = ap read_bytes_field (sym (append-nil (field b))) ∙ read-field b [] h

pub parse_one-field :
    (f : Bytes → Command) (b : Bytes) → length b < 2 ^ 32 → parse_one f (field b) ≡ parsed (f b)
unfolding parse_one finish
parse_one-field f b h = rw (read-field_last b h)

pub parse_two-fields :
    (f : Bytes → Bytes → Command) (a b : Bytes)
    → length a < 2 ^ 32
    → length b < 2 ^ 32
    → parse_two f (field a ++ field b) ≡ parsed (f a b)
unfolding parse_two finish
parse_two-fields f a b h k = rw (read-field a (field b) h, read-field_last b k)

pub read_u64-be64_last : (v : ℕ) → v < 2 ^ 64 → read_u64 (be64 v) ≡ parsed (v, [])
read_u64-be64_last v h = ap read_u64 (sym (append-nil (be64 v))) ∙ read_u64-be64 v [] h

pub read_filter-field :
    (b : Bytes) → length b < 2 ^ 32 → read_filter (field b) ≡ parsed (some b, [])
unfolding read_filter be32
read_filter-field b h = unfold be32 in rw (read-field_last b h)
