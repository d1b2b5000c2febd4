-- ===== src/Tests/Packet.antt =====
-- Packets and frames at concrete inputs.
use better_steam_tools_ameth.Base.{
  Bool, ℕ, zero, suc, ◌+◌, ◌-◌, ◌<◌, ◌≡◌, ◌≢◌, ◌↔◌, refl, ◌&&◌, some, List, [], ◌∷◌, arith, leb,
  ◌==◌, length, get_or,
}
use better_steam_tools_ameth.Base.Text.{Bytes}
use better_steam_tools_ameth.Packet.{
  ensure_packet_layout, read_u32, Unpacked, unpack_raw, disabled_state, unresolved,
}
use better_steam_tools_ameth.Packet.Frame.{
  build_frame, header_of, body_of, unpack_raw-build_frame, unpack_raw-within,
}
use better_steam_tools_ameth.Packet.Latch.{after, Confirmed, after-Confirmed, after_decided}
use better_steam_tools_ameth.Packet.Probe.{
  Memory, Agree, matching, probe_layout, is_plausible, number, copy, probe_frame, is_proto_header,
  matching_layouts, matching_layouts-agree,
}

unpack_raw-build_frame_example :
    (u : Unpacked) × (unpack_raw (build_frame 5 (1 ∷ 2 ∷ []) (3 ∷ [])) ≡ some u)
    × (u.e_msg ≡ 5)
    × (header_of (build_frame 5 (1 ∷ 2 ∷ []) (3 ∷ [])) u ≡ 1 ∷ 2 ∷ [])
    × (body_of (build_frame 5 (1 ∷ 2 ∷ []) (3 ∷ [])) u ≡ 3 ∷ [])
unpack_raw-build_frame_example =
    unpack_raw-build_frame 5 (1 ∷ 2 ∷ []) (3 ∷ []) (omega arith) (omega arith)

abbrev frame : Bytes
frame = 5 ∷ 0 ∷ 0 ∷ 128 ∷ 2 ∷ 0 ∷ 0 ∷ 0 ∷ 1 ∷ 2 ∷ 3 ∷ []

abbrev unpacked : Unpacked
unpacked = record { e_msg = 5; hdr = 8; cb_hdr = 2; body = 10; cb_body = 1 }

unpack_frame : unpack_raw frame ≡ some unpacked
unfolding unpack_raw
unpack_frame = refl

unpack_raw-within_example :
    (unpacked.hdr ≡ 8)
    × (unpacked.hdr + unpacked.cb_hdr ≡ unpacked.body)
    × (unpacked.body + unpacked.cb_body ≡ length frame)
    × (unpacked.cb_hdr ≡ read_u32 frame 4)
unpack_raw-within_example = unpack_raw-within frame (omega arith) unpack_frame

-- two packets that match the stable layout, and one between them that matches none
abbrev masks : List ℕ
masks = 1 ∷ 0 ∷ 1 ∷ []

after_masks : (after masks).state ≡ 8
unfolding after ensure_packet_layout
after_masks = refl

after-Confirmed_example : Confirmed (after masks).state masks
after-Confirmed_example =
    after-Confirmed masks (λ e. omega (arith, after_masks)) (λ e. omega (arith, after_masks))

after_decided_example :
    ((after masks).state ≢ disabled_state)
    × (((after masks).state ≢ unresolved) ↔ ((off : ℕ) × Confirmed off masks))
after_decided_example = after_decided masks (omega arith)

-- a packet at 0x20000 in the stable layout, its frame behind it
abbrev content : Bytes
content =
    0 ∷ 0 ∷ 0 ∷ 0 ∷ 0 ∷ 0 ∷ 0 ∷ 0 ∷ 0x18 ∷ 0 ∷ 2 ∷ 0 ∷ 0 ∷ 0 ∷ 0 ∷ 0 ∷ 10 ∷ 0 ∷ 0 ∷ 0 ∷ 1 ∷ 0 ∷ 0
    ∷ 0 ∷ 1 ∷ 0 ∷ 0 ∷ 128 ∷ 2 ∷ 0 ∷ 0 ∷ 0 ∷ 8 ∷ 0 ∷ []

-- memories that differ behind it
unfoldable memory : ℕ → Memory
memory default address = get_or content (address - 0x20000) default

abbrev readable : ℕ → ℕ → Bool
readable start count = leb 0x20000 start && leb (start + count) 0x20022

abbrev parse : Bytes → Bool
parse bytes = length bytes == 2

get_or_default : (xs : Bytes) (i a b : ℕ) → i < length xs → get_or xs i a ≡ get_or xs i b
get_or_default [] i a b h = absurd (omega arith)
get_or_default (x ∷ xs) zero a b h = refl
get_or_default (x ∷ xs) (suc i) a b h = get_or_default xs i a b (omega arith)

memories-Agree : Agree (memory 0) (memory 7) readable
unfolding Agree memory
memories-Agree start count ok at ge lt = get_or_default content (at - 0x20000) 0 7 (ground arith)

matching_layouts-agree_example :
    matching_layouts (memory 0) readable parse 0x20000
    ≡ matching_layouts (memory 7) readable parse 0x20000
matching_layouts-agree_example =
    matching_layouts-agree (memory 0) (memory 7) readable parse memories-Agree 0x20000

one_layout : matching_layouts (memory 0) readable parse 0x20000 ≡ 1
unfolding matching_layouts memory matching probe_layout is_plausible number copy probe_frame
    is_proto_header
one_layout = refl
