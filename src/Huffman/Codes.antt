-- ===== src/Huffman/Codes.antt =====
-- The code of a byte: the bits from the root of the tree to its leaf. What one tree sends, the other
-- receives.
use mathlib.Core.Option
use mohpc.Base.{
  ℕ, zero, suc, ◌+◌, ◌≤◌, ◌<◌, ◌≡◌, refl, sym, ap, subst, ◌∙◌, inl, inr, arith, List, [], ◌∷◌, ◌++◌,
  Bool, true, false, not, Option, none, some, Option-cases, ltb, ◌==◌, ◌&&◌, if◌then◌else◌, get_or,
  length, leb, all_below, all_below_holds,
}
use mohpc.Huffman.{
  BitBuffer, add_bit, get_bit, internal_node, ConstHuff, node_at, side_of, send_child, send, steps,
  offset_transmit, descend, found, offset_receive,
}
use mohpc.Huffman.Bits.{Holds, add_bits, AreBits}
use mohpc.Huffman.Table.{compression_huff, decompression_huff}

-- The bits that `send` adds.
with_side : Option ℕ → Option ℕ → List ℕ → List ℕ
unfolding side_of
with_side right none bits = bits
with_side right (some child) bits = bits ++ side_of right child ∷ []

code : ConstHuff → ℕ → ℕ → Option ℕ → Option (List ℕ)
unfolding with_side
code h zero node child = none
code h (suc fuel) node child = elim (node_at h node).parent [
  | none ↦ some (with_side (node_at h node).right child [])
  | some p ↦ Option.map (with_side (node_at h node).right child) (code h fuel p (some node))
]

add_bits-append :
    (bits : List ℕ) (v : ℕ) (b : BitBuffer)
    → add_bits (bits ++ v ∷ []) b ≡ add_bit v (add_bits bits b)
add_bits-append [] v b = refl
add_bits-append (w ∷ bits) v b = add_bits-append bits v (add_bit w b)

add_bits-with_side :
    (right child : Option ℕ) (bits : List ℕ) (b : BitBuffer)
    → add_bits (with_side right child bits) b ≡ send_child right child (add_bits bits b)
unfolding with_side send_child
add_bits-with_side right none bits b = refl
add_bits-with_side right (some c) bits b = add_bits-append bits (side_of right c) b

mapped :
    (right child : Option ℕ) (b : BitBuffer) (o : Option (List ℕ))
    → Option.map (send_child right child) (Option.map (λ bits. add_bits bits b) o)
      ≡ Option.map (λ bits. add_bits bits b) (Option.map (with_side right child) o)
mapped right child b none = refl
mapped right child b (some bits) = ap some (sym (add_bits-with_side right child bits b))

send-code :
    (h : ConstHuff) (fuel node : ℕ) (child : Option ℕ) (b : BitBuffer)
    → send h fuel node child b ≡ Option.map (λ bits. add_bits bits b) (code h fuel node child)
unfolding send code
send-code h zero node child b = refl
send-code h (suc fuel) node child b = elim (Option-cases (node_at h node).parent) [
  | inl e ↦
      rw (send, code, e) (ap some (sym (add_bits-with_side (node_at h node).right child [] b)))
  | inr (p, e) ↦
      rw (send, code, e, send-code h fuel p (some node) b)
        (mapped (node_at h node).right child b (code h fuel p (some node)))
]

-- The bits lead from a node to one that carries the symbol.
leads : ConstHuff → Option ℕ → List ℕ → ℕ → Bool
leads h none bits symbol = false
leads h (some node) [] symbol = ((node_at h node).symbol == symbol) && not (symbol == internal_node)
leads h (some node) (v ∷ bits) symbol =
    ((node_at h node).symbol == internal_node)
    && leads h (if v == 0 then (node_at h node).left else (node_at h node).right) bits symbol

descend-Holds :
    (h : ConstHuff) (bits : List ℕ) (fuel : ℕ) (node : Option ℕ) (symbol : ℕ) (b : BitBuffer)
    → leads h node bits symbol ≡ true
    → length bits < fuel
    → Holds b.bytes b.bit bits
    → descend h fuel node b ≡ some (some symbol, record b { bit = b.bit + length bits })
unfolding leads Holds descend get_bit
descend-Holds h bits fuel none symbol b l f holds = ground (arith, l)
descend-Holds h bits zero (some node) symbol b l f holds = absurd (omega arith)
descend-Holds h [] (suc fuel) (some node) symbol b l f holds = ground (arith, l)
descend-Holds h (v ∷ bits) (suc fuel) (some node) symbol b l f (e, holds) =
    let inside : ((node_at h node).symbol == internal_node) ≡ true = ground (arith, l) in
    let on : leads h (if v == 0 then (node_at h node).left else (node_at h node).right) bits symbol
        ≡ true =
      ground (arith, l) in
    rw (descend, inside, e)
      (descend-Holds h bits fuel (if v == 0 then (node_at h node).left else (node_at h node).right)
          symbol (record b { bit = b.bit + 1 }) on (omega arith)
          (subst (λ (x : ℕ). Holds b.bytes x bits) (omega arith) holds)
        ∙ ap (λ (x : ℕ). some (some symbol, record b { bit = x })) (omega arith))

are_bits : List ℕ → Bool
are_bits [] = true
are_bits (v ∷ bits) = ltb v 2 && are_bits bits

are_bits-AreBits : (bits : List ℕ) → are_bits bits ≡ true → AreBits bits
unfolding are_bits AreBits
are_bits-AreBits [] h = tt
are_bits-AreBits (v ∷ bits) h = (ground (arith, h), are_bits-AreBits bits (ground (arith, h)))

-- The code by which a byte is sent.
abbrev sent_code : ℕ → Option (List ℕ)
sent_code ch =
    code compression_huff (steps compression_huff) (get_or compression_huff.loc ch 0) none

or_nil : Option (List ℕ) → List ℕ
or_nil none = []
or_nil (some bits) = bits

unfoldable pub bits_of : ℕ → List ℕ
unfolding code or_nil
bits_of ch = or_nil (sent_code ch)

is_coded : ℕ → Option (List ℕ) → Bool
unfolding are_bits leads
is_coded ch none = false
is_coded ch (some bits) =
    leads decompression_huff (some decompression_huff.tree) bits ch
    && are_bits bits
    && leb (length bits) 11
    && not (length bits == 0)

all_coded : all_below 256 (λ ch. is_coded ch (sent_code ch)) ≡ true
unfolding is_coded code node_at compression_huff decompression_huff with_side side_of leads are_bits
all_coded = refl

record IsCode (ch : ℕ) (o : Option (List ℕ)) : Type 0 where
  sent : o ≡ some (or_nil o)
  leading : leads decompression_huff (some decompression_huff.tree) (or_nil o) ch ≡ true
  bits_only : AreBits (or_nil o)
  short : length (or_nil o) ≤ 11
  non_empty : 0 < length (or_nil o)

all_true :
    (a b c d : Bool) → (a && b && c && d) ≡ true → (a ≡ true) × (b ≡ true) × (c ≡ true) × (d ≡ true)
all_true a b c d h = (ground (arith, h), ground (arith, h), ground (arith, h), ground (arith, h))

at_most : (n : ℕ) → leb n 11 ≡ true → n ≤ 11
at_most n h = ground (arith, h)

positive : (n : ℕ) → not (n == 0) ≡ true → 0 < n
positive n h = ground (arith, h)

is_coded-IsCode : (ch : ℕ) (o : Option (List ℕ)) → is_coded ch o ≡ true → IsCode ch o
unfolding or_nil is_coded
is_coded-IsCode ch none h = ground (arith, h)
is_coded-IsCode ch (some bits) h =
    let (led, only, short, some_bit) =
      all_true (leads decompression_huff (some decompression_huff.tree) bits ch) (are_bits bits)
        (leb (length bits) 11) (not (length bits == 0)) h in
    record {
      sent = refl;
      leading = led;
      bits_only = are_bits-AreBits bits only;
      short = at_most (length bits) short;
      non_empty = positive (length bits) some_bit;
    }

coded : (ch : ℕ) → ch < 256 → IsCode ch (sent_code ch)
coded ch h =
    is_coded-IsCode ch (sent_code ch)
      (all_below_holds 256 (λ ch. is_coded ch (sent_code ch)) all_coded ch h)

pub length-bits_of : (ch : ℕ) → ch < 256 → (0 < length (bits_of ch)) × (length (bits_of ch) ≤ 11)
unfolding bits_of
length-bits_of ch h = let c = coded ch h in (c.non_empty, c.short)

pub bits_of-AreBits : (ch : ℕ) → ch < 256 → AreBits (bits_of ch)
unfolding bits_of
bits_of-AreBits ch h = let c = coded ch h in c.bits_only

-- Sending a byte adds its bits.
pub offset_transmit_bits :
    (ch : ℕ) (b : BitBuffer)
    → ch < 256
    → offset_transmit compression_huff ch b ≡ some (add_bits (bits_of ch) b)
unfolding offset_transmit bits_of
offset_transmit_bits ch b h =
    let c = coded ch h in
    send-code compression_huff (steps compression_huff) (get_or compression_huff.loc ch 0) none b
    ∙ ap (Option.map (λ (bits : List ℕ). add_bits bits b)) c.sent

few_steps : (n : ℕ) → n ≤ 11 → n < steps decompression_huff
unfolding decompression_huff
few_steps n h = omega arith

-- Where a buffer holds the bits of a byte, the byte is received.
pub offset_receive-Holds :
    (ch : ℕ) (b : BitBuffer)
    → ch < 256
    → Holds b.bytes b.bit (bits_of ch)
    → offset_receive decompression_huff b
      ≡ some (ch, record b { bit = b.bit + length (bits_of ch) })
unfolding offset_receive bits_of
offset_receive-Holds ch b h holds =
    let c = coded ch h in
    ap (Option.map (found b)) (
      descend-Holds decompression_huff (bits_of ch) (steps decompression_huff)
        (some decompression_huff.tree) ch b c.leading (few_steps _ c.short) holds)
