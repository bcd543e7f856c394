-- ===== src/Huffman.antt =====
-- The bits of mohpc-lib/Utility/Misc/MSG/HuffmanTree.cpp (addBit, getBit) and the constant tree of
-- include/MOHPC/Utility/Misc/MSG/HuffmanTree.h (ConstHuff). A pointer to a node is its index in
-- `nodeList`; `none` is the null pointer. A read out of the buffer, which is undefined in the code,
-- gives 0 and a write out of it is dropped: the theorems leave enough room.
pub mod Table
pub mod Bits
pub mod Bytes
pub mod Codes
pub mod Places
mod RoundTrip
mod Tests
use mathlib.Core.Option
use mohpc.Base.{
  ℕ, zero, suc, ◌+◌, ◌*◌, ◌/◌, ◌%◌, ◌^◌, List, [], ◌∷◌, Bool, true, false, Option, none, some, set,
  ltb, get_or, length, ◌==◌, if◌then◌else◌, bit_or,
}

-- A buffer of bits and the position in it: `fout` or `fin`, and `bloc`.
pub record BitBuffer : Type 0 where
  pub bytes : List ℕ
  pub bit : ℕ

-- `Huff::addBit`
unfoldable pub add_bit : ℕ → BitBuffer → BitBuffer
add_bit v b =
    let index = b.bit / 8 in
    let bf = b.bit % 8 in
    let fout = if bf == 0 then set b.bytes index 0 else b.bytes in
    record {
      bytes = set fout index (bit_or (get_or fout index 0) (v * 2 ^ bf) % 256);
      bit = b.bit + 1;
    }

-- The bit at a position.
unfoldable pub bit_at : List ℕ → ℕ → ℕ
bit_at fin bloc = get_or fin (bloc / 8) 0 / 2 ^ (bloc % 8) % 2

-- `Huff::getBit`
unfoldable pub get_bit : BitBuffer → ℕ × BitBuffer
unfolding bit_at
get_bit b = (bit_at b.bytes b.bit, record b { bit = b.bit + 1 })

-- `Huff::INTERNAL_NODE`
abbrev pub internal_node : ℕ
internal_node = 257

-- `constNode_t`
pub record ConstNode : Type 0 where
  pub left : Option ℕ
  pub right : Option ℕ
  pub parent : Option ℕ
  pub symbol : ℕ

-- `ConstHuff`
pub record ConstHuff : Type 0 where
  pub tree : ℕ
  pub loc : List ℕ
  pub node_list : List ConstNode

-- An index, which is -1 where it is none.
pointer : ℕ → Option ℕ
pointer i = if ltb i 513 then some i else none

nodes_of : List ℕ → List ConstNode
unfolding pointer
nodes_of (l ∷ r ∷ p ∷ s ∷ rows) =
    record { left = pointer l; right = pointer r; parent = pointer p; symbol = s } ∷ nodes_of rows
nodes_of rows = []

-- The constructor of `ConstHuff<513>`, on the four fields that it reads of each node.
pub const_huff : ℕ → List ℕ → List ℕ → ConstHuff
unfolding nodes_of
const_huff tree_num in_locs nodes = record {
  tree = tree_num;
  loc = in_locs;
  node_list = nodes_of nodes;
}

abbrev no_node : ConstNode
no_node = record { left = none; right = none; parent = none; symbol = 0 }

unfoldable pub node_at : ConstHuff → ℕ → ConstNode
node_at h node = get_or h.node_list node no_node

-- `node->right == child`, as the bit that it is sent as
pub side_of : Option ℕ → ℕ → ℕ
side_of none child = 0
side_of (some r) child = if r == child then 1 else 0

-- The bit of a child, if there is one.
send_child : Option ℕ → Option ℕ → BitBuffer → BitBuffer
unfolding add_bit side_of
send_child right none b = b
send_child right (some child) b = add_bit (side_of right child) b

-- `ConstHuff::send`; the recursion climbs to the root, which `fuel` bounds.
pub send : ConstHuff → ℕ → ℕ → Option ℕ → BitBuffer → Option BitBuffer
unfolding node_at send_child
send h zero node child b = none
send h (suc fuel) node child b = elim (node_at h node).parent [
  | none ↦ some (send_child (node_at h node).right child b)
  | some p ↦ Option.map (send_child (node_at h node).right child) (send h fuel p (some node) b)
]

-- As many steps as there are nodes.
abbrev pub steps : ConstHuff → ℕ
steps h = suc (length h.node_list)

-- `ConstHuff::offsetTransmit`, and `transmit`, which is the same
unfoldable pub offset_transmit : ConstHuff → ℕ → BitBuffer → Option BitBuffer
unfolding send
offset_transmit h ch b = send h (steps h) (get_or h.loc ch 0) none b

-- The loop of `ConstHuff::offsetReceive`: the symbol of the node that it ends at, if there is one.
pub descend : ConstHuff → ℕ → Option ℕ → BitBuffer → Option (Option ℕ × BitBuffer)
unfolding node_at get_bit
descend h fuel none b = some (none, b)
descend h zero (some node) b = none
descend h (suc fuel) (some node) b = elim ((node_at h node).symbol == internal_node) [
  | true ↦
      let (v, b') = get_bit b in
      descend h fuel (if v == 0 then (node_at h node).left else (node_at h node).right) b'
  | false ↦ some (some (node_at h node).symbol, b)
]

found : BitBuffer → Option ℕ × BitBuffer → ℕ × BitBuffer
found b (none, b') = (0, b)
found b (some symbol, b') = (symbol, b')

-- `ConstHuff::offsetReceive`: at a null pointer the offset stays.
unfoldable pub offset_receive : ConstHuff → BitBuffer → Option (ℕ × BitBuffer)
unfolding descend found
offset_receive h b = Option.map (found b) (descend h (steps h) (some h.tree) b)
