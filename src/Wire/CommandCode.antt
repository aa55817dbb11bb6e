-- ===== src/Wire/CommandCode.antt =====
-- The command codes, `const enum CommandCode` of apps/bun/src/lib/wire.ts.
use wormdb.Base.{ℕ}

abbrev pub get : ℕ
get = 0x01

abbrev pub set : ℕ
set = 0x02

abbrev pub del : ℕ
del = 0x03

abbrev pub status : ℕ
status = 0x04

abbrev pub cluster_status : ℕ
cluster_status = 0x05

abbrev pub sub : ℕ
sub = 0x06

abbrev pub unsub : ℕ
unsub = 0x07

abbrev pub publish : ℕ
publish = 0x08

abbrev pub exec : ℕ
exec = 0x09

abbrev pub cluster_peers : ℕ
cluster_peers = 0x0a

abbrev pub save : ℕ
save = 0x0b

abbrev pub auth : ℕ
auth = 0x0c

abbrev pub vinsert : ℕ
vinsert = 0x0d

abbrev pub vdelete : ℕ
vdelete = 0x0e

abbrev pub vbulkinsert : ℕ
vbulkinsert = 0x0f
