-- ===== src/Packet/Frame.antt =====
-- The split of a frame inverts the way a frame is put together.
use better_steam_tools_ameth.Base.{
  ℕ, suc, ◌+◌, ◌*◌, ◌/◌, ◌%◌, ◌^◌, ◌<◌, ◌≡◌, refl, ap, some, [], ◌∷◌, ◌++◌, arith, length, drop,
  take, length-append, take-length-append, drop-length-append,
}
use better_steam_tools_ameth.Base.Text.{Bytes}
use better_steam_tools_ameth.Packet.{read_u32, Unpacked, unpack_raw}

unfoldable pub write_u32 : ℕ → Bytes
write_u32 v = v % 256 ∷ v / 256 % 256 ∷ v / 65536 % 256 ∷ v / 16777216 % 256 ∷ []

-- a protobuf frame: the message number with the flag, the size of the header, header and body
unfoldable pub build_frame : ℕ → Bytes → Bytes → Bytes
unfolding write_u32
build_frame e_msg header body =
    write_u32 (e_msg + 2 ^ 31) ++ (write_u32 (length header) ++ (header ++ body))

-- the bytes that an unpacked header and body stand for
abbrev pub header_of : Bytes → Unpacked → Bytes
header_of frame u = take u.cb_hdr (drop u.hdr frame)

abbrev pub body_of : Bytes → Unpacked → Bytes
body_of frame u = take u.cb_body (drop u.body frame)

u32-bytes :
    (v : ℕ)
    → v < 2 ^ 32
    → v % 256 + 256 * (v / 256 % 256) + 65536 * (v / 65536 % 256) + 16777216 * (v / 16777216 % 256)
      ≡ v
u32-bytes v h = omega arith

take-length : (xs : Bytes) → take (length xs) xs ≡ xs
take-length [] = refl
take-length (x ∷ xs) = ap (◌∷◌ x) (take-length xs)

unpack-eq :
    (e_msg : ℕ) (header body : Bytes)
    → e_msg < 2 ^ 31
    → 8 + length header + length body < 2 ^ 32
    → unpack_raw (build_frame e_msg header body)
      ≡ some (record {
        e_msg = e_msg;
        hdr = 8;
        cb_hdr = length header;
        body = 8 + length header;
        cb_body = length body;
      })
unfolding unpack_raw build_frame
unpack-eq e_msg header body small fits =
    rw (u32-bytes (e_msg + 2 ^ 31) (omega arith), u32-bytes (length header) (omega arith))
      (ground (arith, length-append header body))

body-eq :
    (e_msg : ℕ) (header body : Bytes)
    → take (length body) (drop (8 + length header) (build_frame e_msg header body)) ≡ body
unfolding build_frame
body-eq e_msg header body =
    let e : 8 + length header ≡ suc (suc (suc (suc (suc (suc (suc (suc (length header)))))))) =
      omega arith in
    rw (e, drop-length-append header body, take-length body)

-- Every frame of a header and a body below 4 GiB is split into its message number, its header and
-- its body.
pub unpack_raw-build_frame :
    (e_msg : ℕ) (header body : Bytes)
    → e_msg < 2 ^ 31
    → 8 + length header + length body < 2 ^ 32
    → (u : Unpacked) × (unpack_raw (build_frame e_msg header body) ≡ some u)
      × (u.e_msg ≡ e_msg)
      × (header_of (build_frame e_msg header body) u ≡ header)
      × (body_of (build_frame e_msg header body) u ≡ body)
unfolding unpack_raw build_frame
unpack_raw-build_frame e_msg header body small fits = (
  record {
    e_msg = e_msg;
    hdr = 8;
    cb_hdr = length header;
    body = 8 + length header;
    cb_body = length body;
  },
  unpack-eq e_msg header body small fits,
  refl,
  take-length-append header body,
  body-eq e_msg header body,
)

-- Whatever the bytes are, a frame that is accepted has the header and the body inside it: the
-- header starts behind the eight bytes of the frame header, the body behind the header, and the
-- body ends with the frame. No claimed length, however large, is taken over the real size.
pub unpack_raw-within :
    (frame : Bytes) {u : Unpacked}
    → length frame < 2 ^ 32
    → unpack_raw frame ≡ some u
    → (u.hdr ≡ 8)
      × (u.hdr + u.cb_hdr ≡ u.body)
      × (u.body + u.cb_body ≡ length frame)
      × (u.cb_hdr ≡ read_u32 frame 4)
unfolding unpack_raw
unpack_raw-within frame word h = ground arith
