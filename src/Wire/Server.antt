-- ===== src/Wire/Server.antt =====
-- The server's reader of command frames, readFrameAlloc and parseCommandPayload of
-- src/protocol/wire.zig. The read position is the rest of the payload. Allocation does not fail.
pub mod Reads
pub mod Vectors
pub mod RoundTrip
use Prim.Native.Nat.{bit_and}
use wormdb.Base.{
  ◌*◌, ◌-◌, ◌/◌, Bool, not, Option, ltb, ◌==◌, length, take, drop, if◌then◌else◌, ◌&&◌, List, ℕ,
  ◌∷◌, none, [], ◌+◌, some, suc, zero,
}
use wormdb.Wire.Bytes.{Bytes, of_be32}
use wormdb.Wire.CommandCode

pub data Parsed {ℓ} (A : Type ℓ) : Type ℓ where
  parsed : A → Parsed A
  end_of_stream corruption unknown_command payload_too_large invalid_flags : Parsed A

infixl 5 ◌>>=◌
abbrev pub ◌>>=◌ {ℓ κ} : {A : Type ℓ} {B : Type κ} → Parsed A → (A → Parsed B) → Parsed B
parsed a >>= f = f a
end_of_stream >>= f = end_of_stream
corruption >>= f = corruption
unknown_command >>= f = unknown_command
payload_too_large >>= f = payload_too_large
invalid_flags >>= f = invalid_flags

pub record VinsertParams : Type 0 where
  pub key : Bytes
  pub vector : Bytes
  pub worm : Bool
  pub namespace : Bytes
  pub metric : Bytes
  pub timestamp : ℕ
  pub is_async : Bool

pub record ServerItem : Type 0 where
  pub key : Bytes
  pub vector : Bytes
  pub timestamp : ℕ

pub record VbulkinsertParams : Type 0 where
  pub namespace : Bytes
  pub metric : Bytes
  pub worm : Bool
  pub is_async : Bool
  pub items : List ServerItem

pub record VrabitqParams : Type 0 where
  pub namespace : Bytes
  pub dim : ℕ
  pub seed : ℕ
  pub centroid : Bytes
  pub rotation : Bytes

pub data Command : Type 0 where
  get delete unsubscribe auth : Bytes → Command
  subscribe : Bytes → Option Bytes → Command
  set : Bytes → Bytes → Bool → Command
  publish vdelete : Bytes → Bytes → Command
  status cluster_status cluster_peers save : Command
  exec : Bytes → List Bytes → Command
  vinsert : VinsertParams → Command
  vbulkinsert : VbulkinsertParams → Command
  vrabitq_install : VrabitqParams → Command

-- `std.mem.readInt(u32, …, .big)` at the position, which moves on by four.
pub read_u32 : Bytes → Parsed (ℕ × Bytes)
read_u32 (a ∷ b ∷ c ∷ d ∷ rest) = parsed (of_be32 a b c d, rest)
read_u32 _ = corruption

pub read_u64 : Bytes → Parsed (ℕ × Bytes)
read_u64 payload = do
  (hi, rest) ← read_u32 payload
  (lo, rest) ← read_u32 rest
  parsed (hi * 4294967296 + lo, rest)

pub read_u8 : Bytes → Parsed (ℕ × Bytes)
read_u8 (b ∷ rest) = parsed (b, rest)
read_u8 [] = corruption

pub read_bytes_field : Bytes → Parsed (Bytes × Bytes)
read_bytes_field payload = do
  (len, rest) ← read_u32 payload
  if ltb (length rest) len then corruption else parsed (take len rest, drop len rest)

-- `if (pos != payload.len) return error.Corruption;`
pub finish {ℓ} : {A : Type ℓ} → Bytes → A → Parsed A
finish [] a = parsed a
finish (b ∷ rest) a = corruption

-- `if ((flags & reserved) != 0) return error.InvalidFlags;`
abbrev pub check_flags : ℕ → ℕ → Parsed (Unit {0})
check_flags flags reserved = if bit_and flags reserved == 0 then parsed tt else invalid_flags

abbrev pub has_flag : ℕ → ℕ → Bool
has_flag flags bit = not (bit_and flags bit == 0)

pub parse_one : (Bytes → Command) → Bytes → Parsed Command
parse_one f payload = do (a, rest) ← read_bytes_field payload; finish rest (f a)

pub parse_two : (Bytes → Bytes → Command) → Bytes → Parsed Command
parse_two f payload = do
  (a, rest) ← read_bytes_field payload
  (b, rest) ← read_bytes_field rest
  finish rest (f a b)

pub parse_empty : Command → Bytes → Parsed Command
parse_empty c payload = finish payload c

-- `if (pos < payload.len) try readBytesField(…) else null`
pub read_filter : Bytes → Parsed (Option Bytes × Bytes)
read_filter [] = parsed (none, [])
read_filter (b ∷ rest) = do (filter, rest) ← read_bytes_field (b ∷ rest); parsed (some filter, rest)

pub parse_subscribe : Bytes → Parsed Command
parse_subscribe payload = do
  (channel, rest) ← read_bytes_field payload
  (filter, rest) ← read_filter rest
  finish rest (subscribe channel filter)

pub parse_set : Bytes → Parsed Command
parse_set payload = do
  (flags, rest) ← read_u8 payload
  _ ← check_flags flags 0xfe
  (key, rest) ← read_bytes_field rest
  (value, rest) ← read_bytes_field rest
  finish rest (set key value (has_flag flags 0x01))

pub read_args : ℕ → Bytes → Parsed (List Bytes × Bytes)
read_args zero payload = parsed ([], payload)
read_args (suc n) payload = do
  (a, rest) ← read_bytes_field payload
  (as', rest) ← read_args n rest
  parsed (a ∷ as', rest)

pub parse_exec : Bytes → Parsed Command
parse_exec payload = do
  (procedure, rest) ← read_bytes_field payload
  (count, rest) ← read_u32 rest
  (args, rest) ← read_args count rest
  finish rest (exec procedure args)

pub parse_vinsert : Bytes → Parsed Command
parse_vinsert payload = do
  (key, rest) ← read_bytes_field payload
  (vector, rest) ← read_bytes_field rest
  (flags, rest) ← read_u8 rest
  _ ← check_flags flags 0xfc
  (namespace, rest) ← read_bytes_field rest
  (metric, rest) ← read_bytes_field rest
  (ts, rest) ← read_u64 rest
  finish rest (
      vinsert (record {
        key = key;
        vector = vector;
        worm = has_flag flags 0x01;
        namespace = namespace;
        metric = metric;
        timestamp = ts;
        is_async = has_flag flags 0x02;
      }))

pub read_items : ℕ → Bytes → Parsed (List ServerItem × Bytes)
read_items zero payload = parsed ([], payload)
read_items (suc n) payload = do
  (key, rest) ← read_bytes_field payload
  (vector, rest) ← read_bytes_field rest
  (ts, rest) ← read_u64 rest
  (items, rest) ← read_items n rest
  parsed (record { key = key; vector = vector; timestamp = ts } ∷ items, rest)

pub parse_vbulkinsert : Bytes → Parsed Command
parse_vbulkinsert payload = do
  (namespace, rest) ← read_bytes_field payload
  (metric, rest) ← read_bytes_field rest
  (flags, rest) ← read_u8 rest
  _ ← check_flags flags 0xfc
  (count, rest) ← read_u32 rest
  _ ← (if ltb (length rest / 16) count then corruption else parsed (tt {0}))
  (items, rest) ← read_items count rest
  finish rest (
      vbulkinsert (record {
        namespace = namespace;
        metric = metric;
        worm = has_flag flags 0x01;
        is_async = has_flag flags 0x02;
        items = items;
      }))

pub parse_vrabitq : Bytes → Parsed Command
parse_vrabitq payload = do
  (namespace, rest) ← read_bytes_field payload
  (dim, rest) ← read_u32 rest
  (seed, rest) ← read_u64 rest
  (centroid, rest) ← read_bytes_field rest
  (rotation, rest) ← read_bytes_field rest
  _ ←
      (if (length centroid == dim * 4) && (length rotation == dim * dim * 4)
        then parsed (tt {0})
        else corruption)
  finish rest (
      vrabitq_install (record {
        namespace = namespace;
        dim = dim;
        seed = seed;
        centroid = centroid;
        rotation = rotation;
      }))

pub parse_command_payload : ℕ → Bytes → Parsed Command
parse_command_payload id payload =
    if id == CommandCode.get
    then parse_one get payload
    else if id == CommandCode.set
    then parse_set payload
    else if id == CommandCode.del
    then parse_one delete payload
    else if id == CommandCode.status
    then parse_empty status payload
    else if id == CommandCode.cluster_status
    then parse_empty cluster_status payload
    else if id == CommandCode.sub
    then parse_subscribe payload
    else if id == CommandCode.unsub
    then parse_one unsubscribe payload
    else if id == CommandCode.publish
    then parse_two publish payload
    else if id == CommandCode.exec
    then parse_exec payload
    else if id == CommandCode.cluster_peers
    then parse_empty cluster_peers payload
    else if id == CommandCode.save
    then parse_empty save payload
    else if id == CommandCode.auth
    then parse_one auth payload
    else if id == CommandCode.vinsert
    then parse_vinsert payload
    else if id == CommandCode.vdelete
    then parse_two vdelete payload
    else if id == CommandCode.vbulkinsert
    then parse_vbulkinsert payload
    else if id == 0x10
    then parse_vrabitq payload
    else unknown_command

-- The command at the front of the stream, and the rest of it.
pub read_frame : Bytes → Parsed (Command × Bytes)
read_frame (id ∷ stream) = do
  (len, rest) ← (elim (read_u32 stream) [ parsed p ↦ parsed p | _ ↦ end_of_stream ])
  _ ← (if ltb 16777216 len then payload_too_large else parsed (tt {0}))
  _ ← (if ltb (length rest) len then end_of_stream else parsed (tt {0}))
  c ← parse_command_payload id (take len rest)
  parsed (c, drop len rest)
read_frame [] = end_of_stream
