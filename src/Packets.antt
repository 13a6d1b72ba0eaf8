-- ===== src/Packets.antt =====
-- crs/ude/packets.h and crs/ude/packets.cpp: class cTalkPacket, a buffer with a packed header in
-- front. The buffer is the list of its bytes, numbers stand in it with the lowest byte first, and
-- bytes that were never written are 0. The shared counters work as those of Handles.
pub mod Layout
pub mod Items
mod Tests
use crs.Base.{
  ℕ, zero, suc, ◌+◌, ◌-◌, ◌*◌, ◌%◌, ◌/◌, ◌^◌, Bool, true, false, List, [], ◌∷◌, ◌++◌, Option, none,
  some, ltb, leb, ◌==◌, if◌then◌else◌, ◌>>=◌, length, take, drop, replicate, overwrite,
}

pub record PacketHeader : Type 0 where
  pub sz : ℕ
  pub id : ℕ
  pub domain : ℕ
  pub recepient : ℕ

-- `sizeof (cPacketHeader)`, and what a `ulong` of 32 bits holds
abbrev pub header_size : ℕ
header_size = 10

abbrev pub ulong_mod : ℕ
ulong_mod = 2 ^ 32

-- a number of `n` bytes in memory
unfoldable pub store_bytes : ℕ → ℕ → List ℕ
store_bytes zero v = []
store_bytes (suc n) v = v % 256 ∷ store_bytes n (v / 256)

unfoldable pub load_bytes : ℕ → List ℕ → ℕ
load_bytes zero bytes = 0
load_bytes (suc n) [] = 0
load_bytes (suc n) (b ∷ bytes) = b + 256 * load_bytes n bytes

unfoldable pub header_bytes : PacketHeader → List ℕ
header_bytes h =
    store_bytes 4 h.sz
    ++ (store_bytes 2 h.id ++ (store_bytes 2 h.domain ++ store_bytes 2 h.recepient))

-- `header ()`, or the cast of a buffer to a header
unfoldable pub header : List ℕ → PacketHeader
header contents = record {
  sz = load_bytes 4 contents;
  id = load_bytes 2 (drop 4 contents);
  domain = load_bytes 2 (drop 6 contents);
  recepient = load_bytes 2 (drop 8 contents);
}

pub record TalkPacket : Type 0 where
  pub size : ℕ
  pub contents : List ℕ

-- the size that `construct` gives the buffer
unfoldable pub raw_size : ℕ → ℕ
raw_size csz =
    let size = (csz + header_size) % ulong_mod in
    let slack = csz % 8 in if slack == 0 then size else (size + (8 - slack)) % ulong_mod

-- The header has no room in a buffer whose size wrapped around.
unfoldable pub construct : PacketHeader → Option TalkPacket
construct h =
    let size = raw_size h.sz in
    let made : TalkPacket = record {
      size = size;
      contents = header_bytes h ++ replicate (size - header_size) 0;
    } in
    if ltb size header_size then none else some made

-- the constructor from a raw buffer; the error is `none`
unfoldable pub from_raw : List ℕ → Option TalkPacket
from_raw raw_contents =
    let made : TalkPacket = record {
      size = length raw_contents % ulong_mod;
      contents = raw_contents;
    } in
    if ltb (length raw_contents) (load_bytes 4 raw_contents + header_size) then none else some made

-- `byteSize`, `wordSize`, and `valueSize` or `int64Size`: how many items of `w` bytes there are
unfoldable pub item_size : ℕ → TalkPacket → ℕ
item_size zero p = 0
item_size (suc w) p = (header p.contents).sz / suc w

-- `_byte_range`, `_word_range`, `_value_range`, `_int64_range`; the error is `none`
unfoldable pub item_range : ℕ → ℕ → TalkPacket → Option ℕ
item_range w idx p = if leb (item_size w p) idx then none else some idx

-- the item that `byte (idx)`, `word (idx)`, `value (idx)` or `int64 (idx)` refers to, read and written
unfoldable pub get_item : ℕ → ℕ → TalkPacket → Option ℕ
get_item w idx p =
    item_range w idx p >>= λ i. some (load_bytes w (drop (header_size + i * w) p.contents))

unfoldable pub set_item : ℕ → ℕ → ℕ → TalkPacket → Option TalkPacket
set_item w idx v p = item_range w idx p >>= λ i.
    some (record p { contents = overwrite (header_size + i * w) (store_bytes w v) p.contents })
