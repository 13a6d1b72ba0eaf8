-- ===== src/Packets/Tests.antt =====
-- A packet of three bytes.
use crs.Base.{
  ℕ, ◌-◌, ◌%◌, ◌≤◌, ◌<◌, ◌≡◌, refl, sym, false, [], ◌∷◌, some, none, arith, ◌==◌, ◌>>=◌, ◌∙◌,
  some_inj,
}
use crs.Packets.{
  PacketHeader, TalkPacket, construct, raw_size, header_bytes, store_bytes, load_bytes, header,
  from_raw, item_size, item_range, get_item, set_item,
}
use crs.Packets.Layout.{IsHeader, IsWhole, construct_lem, from_raw-contents}
use crs.Packets.Items.{set_item-get_item}

abbrev three : PacketHeader
three = record { sz = 3; id = 0x1000; domain = 0xFFFF; recepient = 5 }

word_written : (construct three >>= λ p. set_item 2 0 0x1234 p >>= λ q. get_item 1 1 q) ≡ some 0x12
unfolding construct raw_size header_bytes store_bytes load_bytes header item_size item_range
    get_item set_item
word_written = refl

three-IsHeader : IsHeader three
three-IsHeader = record {
  sz = omega arith;
  id = omega arith;
  domain = omega arith;
  recepient = omega arith;
}

construct_lem_example :
    (p : TalkPacket) × (construct three ≡ some p)
    × IsWhole p
    × (header p.contents ≡ three)
    × (p.size ≤ 20)
    × ((p.size - 10) % 8 ≡ 0)
construct_lem_example = construct_lem three three-IsHeader

-- the packet, rounded up to eight bytes of contents
abbrev made : TalkPacket
made = record {
  size = 18;
  contents = 3 ∷ 0 ∷ 0 ∷ 0 ∷ 0 ∷ 16 ∷ 255 ∷ 255 ∷ 5 ∷ 0 ∷ 0 ∷ 0 ∷ 0 ∷ 0 ∷ 0 ∷ 0 ∷ 0 ∷ 0 ∷ [];
}

three-made : construct three ≡ some made
unfolding construct raw_size header_bytes store_bytes
three-made = refl

made-IsWhole : IsWhole made
made-IsWhole =
    let (p, done, whole, _, _, _) = construct_lem three three-IsHeader in
    rw (some_inj (sym done ∙ three-made)) at whole

from_raw-contents_run : from_raw made.contents ≡ some made
from_raw-contents_run = from_raw-contents made made-IsWhole

-- the last byte of the three is written
in_range : 2 < item_size 1 made
unfolding item_size header load_bytes
in_range = omega arith

set_item-get_item_example :
    (q : TalkPacket) × (set_item 1 2 7 made ≡ some q)
    × IsWhole q
    × (header q.contents ≡ header made.contents)
    × (q.size ≡ 18)
    × (get_item 1 2 q ≡ some 7)
    × ((j : ℕ) → (j == 2 ≡ false) → get_item 1 j q ≡ get_item 1 j made)
set_item-get_item_example = set_item-get_item 0 2 7 made made-IsWhole in_range (omega arith)

-- a size close to 2 ^ 32 wraps around: the buffer has no room for the header
abbrev too_large : PacketHeader
too_large = record three { sz = 0xFFFFFFF8 }

wrapped : construct too_large ≡ none
unfolding construct raw_size
wrapped = refl

-- contents that are said to be longer than the buffer
short_buffer : from_raw (9 ∷ 0 ∷ 0 ∷ 0 ∷ 0 ∷ 16 ∷ 255 ∷ 255 ∷ 5 ∷ 0 ∷ []) ≡ none
unfolding from_raw load_bytes
short_buffer = refl
