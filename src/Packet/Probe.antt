-- ===== src/Packet/Probe.antt =====
-- `ProbeLayout` and `MatchingLayouts` of Hook/NetPacketLogic.cpp. The memory is a function from
-- addresses to bytes; the test for readable memory is the parameter that it is in the source, and
-- the parser of the protobuf header is one as well.
use better_steam_tools_ameth.Base.{
  arith, ℕ, zero, suc, ◌+◌, ◌-◌, ◌*◌, ◌^◌, ◌<◌, ◌≤◌, Bool, true, false, not, ◌&&◌, ◌||◌, List, [],
  ◌∷◌, ◌≡◌, ◌==◌, ltb, leb, if◌then◌else◌, min, Bool-cases, refl, inl, inr, ap, fun_ext,
}
use better_steam_tools_ameth.Base.Text.{Bytes}
use better_steam_tools_ameth.Packet.{layouts}

abbrev pub Memory : Type 0
Memory = ℕ → ℕ

-- `memcpy` of `count` bytes
unfoldable pub copy : Memory → ℕ → ℕ → Bytes
copy mem address zero = []
copy mem address (suc count) = mem address ∷ copy mem (address + 1) count

-- the little-endian number in a list of bytes
unfoldable pub number : Bytes → ℕ
number [] = 0
number (b ∷ bytes) = b + 256 * number bytes

-- kProbeMaxPacket, kProbeMaxHdrLen, kProbeMinHdrLen, kProbeMaxEMsg, kProbeMaxRefCount, kMinUserPtr
-- and kMaxUserPtr
abbrev pub probe_max_packet : ℕ
probe_max_packet = 2 ^ 20

abbrev pub probe_max_hdr_len : ℕ
probe_max_hdr_len = 8192

abbrev pub probe_min_hdr_len : ℕ
probe_min_hdr_len = 2

abbrev pub probe_max_emsg : ℕ
probe_max_emsg = 0x10000

abbrev pub probe_max_ref_count : ℕ
probe_max_ref_count = 4096

abbrev pub min_user_ptr : ℕ
min_user_ptr = 0x10000

abbrev pub max_user_ptr : ℕ
max_user_ptr = 0x7FFFFFFF0000

-- the three fields are plausible; `c_ref` is an int32, so from 2^31 on it is negative
unfoldable pub is_plausible : ℕ → ℕ → ℕ → Bool
is_plausible frame size c_ref =
    not (ltb frame min_user_ptr || leb max_user_ptr frame)
    && not (ltb size 8 || ltb probe_max_packet size)
    && not ((ltb c_ref 1 || leb (2 ^ 31) c_ref) || ltb probe_max_ref_count c_ref)

-- the two words of the frame header are plausible
unfoldable pub is_proto_header : ℕ → ℕ → ℕ → Bool
is_proto_header raw hdr_len size =
    let e_msg = raw - 2 ^ 31 in
    leb (2 ^ 31) raw
    && not (e_msg == 0 || leb probe_max_emsg e_msg)
    && not (ltb hdr_len probe_min_hdr_len || ltb (min (size - 8) probe_max_hdr_len) hdr_len)

-- the end of `ProbeLayout`: the frame
unfoldable pub probe_frame : Memory → (ℕ → ℕ → Bool) → (Bytes → Bool) → ℕ → ℕ → Bool
probe_frame mem readable parse frame size =
    let hdr_len = number (copy mem (frame + 4) 4) in
    if not (readable frame 8)
    then false
    else if not (is_proto_header (number (copy mem frame 4)) hdr_len size)
    then false
    else if not (readable frame (8 + hdr_len))
    then false
    else parse (copy mem (frame + 8) hdr_len)

unfoldable pub probe_layout : Memory → (ℕ → ℕ → Bool) → (Bytes → Bool) → ℕ → ℕ → Bool
probe_layout mem readable parse packet data_off =
    let fields = packet + data_off in
    let frame = number (copy mem fields 8) in
    let size = number (copy mem (fields + 8) 4) in
    let c_ref = number (copy mem (fields + 12) 4) in
    if packet == 0
    then false
    else if not (readable fields 16)
    then false
    else if not (is_plausible frame size c_ref)
    then false
    else probe_frame mem readable parse frame size

-- the loop of `MatchingLayouts` from the layout with the number `i`
unfoldable pub matching : (ℕ → Bool) → List ℕ → ℕ → ℕ
matching matches [] i = 0
matching matches (off ∷ offs) i =
    let rest = matching matches offs (i + 1) in if matches off then 2 ^ i + rest else rest

unfoldable pub matching_layouts : Memory → (ℕ → ℕ → Bool) → (Bytes → Bool) → ℕ → ℕ
matching_layouts mem readable parse packet =
    matching (λ off. probe_layout mem readable parse packet off) layouts 0

copy-agree :
    (mem mem' : Memory) (start count : ℕ)
    → ((at : ℕ) → start ≤ at → at < start + count → mem at ≡ mem' at)
    → copy mem start count ≡ copy mem' start count
unfolding copy
copy-agree mem mem' start zero same = refl
copy-agree mem mem' start (suc count) same =
    let head = same start (omega arith) (omega arith) in
    let tail =
      copy-agree mem mem' (start + 1) count (λ at l u. same at (omega arith) (omega arith)) in
    cc

-- two memories with the same bytes wherever memory is readable
unfoldable pub Agree : Memory → Memory → (ℕ → ℕ → Bool) → Type 0
Agree mem mem' readable =
    (start count : ℕ)
    → readable start count ≡ true
    → (at : ℕ) → start ≤ at
    → at < start + count
    → mem at ≡ mem' at

module _ (mem mem' : Memory) (readable : ℕ → ℕ → Bool) (parse : Bytes → Bool)
    (agree : Agree mem mem' readable) where
  -- a part of a readable range is the same in both
  copy-part :
      (start count from size : ℕ)
      → readable start count ≡ true
      → start ≤ from
      → from + size ≤ start + count
      → copy mem from size ≡ copy mem' from size
  unfolding Agree
  copy-part start count from size ok l u =
      copy-agree mem mem' from size
        (λ at l' u'. agree start count ok at (omega arith) (omega arith))

  probe_frame-agree :
      (frame size : ℕ)
      → probe_frame mem readable parse frame size ≡ probe_frame mem' readable parse frame size
  unfolding probe_frame
  probe_frame-agree frame size = elim (Bool-cases (readable frame 8)) [
    | inr e ↦ rw (e) refl
    | inl e ↦
        let raw = copy-part frame 8 frame 4 e (omega arith) (omega arith) in
        let len = copy-part frame 8 (frame + 4) 4 e (omega arith) (omega arith) in
        rw (raw, len)
          (elim (Bool-cases (readable frame (8 + number (copy mem' (frame + 4) 4)))) [
            | inr e' ↦ rw (e') refl
            | inl e' ↦
                rw
                  (copy-part frame (8 + number (copy mem' (frame + 4) 4)) (frame + 8)
                    (number (copy mem' (frame + 4) 4)) e' (omega arith) (omega arith))
                  refl
          ])
  ]

  probe_layout-agree :
      (packet off : ℕ)
      → probe_layout mem readable parse packet off ≡ probe_layout mem' readable parse packet off
  unfolding probe_layout
  probe_layout-agree packet off = elim (Bool-cases (readable (packet + off) 16)) [
    | inr e ↦ rw (e) refl
    | inl e ↦
        let fields = packet + off in
        rw
          (
            copy-part fields 16 fields 8 e (omega arith) (omega arith),
            copy-part fields 16 (fields + 8) 4 e (omega arith) (omega arith),
            copy-part fields 16 (fields + 12) 4 e (omega arith) (omega arith),
            probe_frame-agree (number (copy mem' fields 8)) (number (copy mem' (fields + 8) 4)),
          )
          refl
  ]

  -- If two memories hold the same bytes in every range that the test calls readable, the probe
  -- finds the same layouts in both: no other byte has an influence.
  pub matching_layouts-agree :
      (packet : ℕ)
      → matching_layouts mem readable parse packet ≡ matching_layouts mem' readable parse packet
  unfolding matching_layouts
  matching_layouts-agree packet =
      ap (λ f. matching f layouts 0) (fun_ext (λ off. probe_layout-agree packet off))
