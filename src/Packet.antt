-- ===== src/Packet.antt =====
-- Hook/NetPacketLogic.h and .cpp, Steam/NetPacket.h and `EnsurePacketLayout` of
-- Hook/Hooks_NetPacket.cpp: the layout of a packet object and the split of a frame. The atomic
-- members are plain fields: one packet is observed at a time.
pub mod Frame
pub mod Latch
pub mod Probe
use better_steam_tools_ameth.Base.{
  ℕ, zero, suc, ◌+◌, ◌-◌, ◌*◌, ◌/◌, ◌%◌, ◌^◌, Bool, true, false, not, ◌&&◌, ◌||◌, Option, none,
  some, List, [], ◌∷◌, ◌==◌, ltb, leb, if◌then◌else◌, length, drop, get_or, min,
}
use better_steam_tools_ameth.Base.Text.{Bytes}

-- the four bytes at `off`, little-endian
unfoldable pub read_u32 : Bytes → ℕ → ℕ
read_u32 bytes off =
    get_or bytes off 0
    + 256 * get_or bytes (off + 1) 0
    + 65536 * get_or bytes (off + 2) 0
    + 16777216 * get_or bytes (off + 3) 0

-- what `UnpackRaw` writes, the two pointers as offsets into the frame
pub record Unpacked : Type 0 where
  pub e_msg : ℕ
  pub hdr : ℕ
  pub cb_hdr : ℕ
  pub body : ℕ
  pub cb_body : ℕ

-- `UnpackRaw` on the bytes of the frame; none is its failure
unfoldable pub unpack_raw : Bytes → Option Unpacked
unfolding read_u32
unpack_raw frame =
    let size = length frame in
    let raw = read_u32 frame 0 in
    let cb_hdr = read_u32 frame 4 in
    let off = (8 + cb_hdr) % 2 ^ 32 in
    if ltb size 8
    then none
    else if ltb raw (2 ^ 31)
    then none
    else if ltb (size - 8) cb_hdr
    then none
    else some (record {
      e_msg = raw - 2 ^ 31;
      hdr = 8;
      cb_hdr = cb_hdr;
      body = off;
      cb_body = size - off;
    })

-- `kLayouts`: the offset of the data pointer, "stable" and "beta"
abbrev pub layouts : List ℕ
layouts = 0x08 ∷ 0x10 ∷ []

abbrev pub unresolved : ℕ
unresolved = 0

abbrev pub disabled_state : ℕ
disabled_state = 0xFFFFFFFF

abbrev pub max_attempts : ℕ
max_attempts = 512

pub data Outcome : Type 0 where
  no_match ambiguous awaiting latched disabled : Outcome

pub record LayoutStep : Type 0 where
  pub outcome : Outcome
  pub data_off : ℕ
  pub attempts : ℕ

pub record LayoutResolver : Type 0 where
  pub attempts : ℕ
  pub agreed : ℕ

-- the number of set bits among the lowest `bits`
unfoldable pub popcount : ℕ → ℕ → ℕ
popcount zero mask = 0
popcount (suc bits) mask = mask % 2 + popcount bits (mask / 2)

-- the position of the lowest set bit among the lowest `bits`
unfoldable pub countr_zero : ℕ → ℕ → ℕ
countr_zero zero mask = 0
countr_zero (suc bits) mask =
    let rest = countr_zero bits (mask / 2) in if mask % 2 == 0 then suc rest else 0

-- the tail of `Observe`: exactly one layout matches
unfoldable pub confirm : LayoutResolver → ℕ → LayoutResolver × LayoutStep
confirm r winner = (
  record r { agreed = winner },
  record {
    outcome = if r.agreed == winner then latched else awaiting;
    data_off = winner;
    attempts = r.attempts;
  },
)

unfoldable pub observe : LayoutResolver → ℕ → LayoutResolver × LayoutStep
unfolding popcount countr_zero confirm
observe resolver match_mask =
    let r = record resolver { attempts = resolver.attempts + 1 } in
    let mask = match_mask % 2 ^ 2 in
    if ltb max_attempts r.attempts
    then (r, record { outcome = disabled; data_off = unresolved; attempts = r.attempts })
    else if mask == 0
    then (r, record { outcome = no_match; data_off = unresolved; attempts = r.attempts })
    else if not (popcount 32 mask == 1)
    then (
      record r { agreed = unresolved },
      record { outcome = ambiguous; data_off = unresolved; attempts = r.attempts },
    )
    else confirm r (get_or layouts (countr_zero 32 mask) 0)

-- the published word, and the resolver behind it
pub record Gate : Type 0 where
  pub state : ℕ
  pub resolver : LayoutResolver

-- the switch over the outcome
unfoldable pub publish : Outcome → ℕ → ℕ → ℕ × Bool
publish latched state data_off = (data_off, true)
publish disabled state data_off = (disabled_state, false)
publish no_match state data_off = (state, false)
publish ambiguous state data_off = (state, false)
publish awaiting state data_off = (state, false)

-- `EnsurePacketLayout`: the gate after a packet, and whether the packet may be read
unfoldable pub ensure_packet_layout : Gate → ℕ → Gate × Bool
unfolding observe publish
ensure_packet_layout g mask =
    if not (g.state == unresolved) && not (g.state == disabled_state)
    then (g, true)
    else if g.state == disabled_state
    then (g, false)
    else let (r, s) = observe g.resolver mask in
      let (state, ready) = publish s.outcome g.state s.data_off in
      (record { state = state; resolver = r }, ready)
