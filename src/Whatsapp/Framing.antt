-- ===== src/Whatsapp/Framing.antt =====
-- pkg/transport/whatsapp/framing.go: the one-time header and the 3-byte length prefix.
pub mod Frames
use noisecat.Base.{
  ℕ, ◌+◌, ◌*◌, ◌/◌, ◌%◌, ◌-◌, ◌^◌, ◌-◌, ◌++◌, Bool, true, false, not, ◌&&◌, [], ◌∷◌, Bytes, length,
  get_or, ◌==◌, ltb, if◌then◌else◌, text, ret, raise, Action, ◌>>=◌, ◌>>◌, pure, guard, gets,
  modify, Stream, read_full, write_all,
}

abbrev pub max_frame_len : ℕ
max_frame_len = 2 ^ 24 - 1

abbrev pub wa_conn_header : Bytes
wa_conn_header = b'W' ∷ b'A' ∷ 6 ∷ 3 ∷ []

pub record FramedConn : Type 0 where
  pub rw : Stream
  pub write_header : Bool
  pub read_header : Bool

abbrev pub on_rw : {A : Type 0} → Action Stream A → Action FramedConn A
on_rw m f = elim (m f.rw) [
  | ret a s ↦ ret a (record f { rw = s })
  | raise e s ↦ raise e (record f { rw = s })
]

unfoldable pub new_client_framed_conn : Stream → FramedConn
new_client_framed_conn s = record { rw = s; write_header = true; read_header = false }

-- `byte(n>>16), byte(n>>8), byte(n)`
abbrev pub be24 : ℕ → Bytes
be24 n = (n / 2 ^ 16 % 256) ∷ (n / 2 ^ 8 % 256) ∷ (n % 256) ∷ []

abbrev pub of_be24 : Bytes → ℕ
of_be24 lp = get_or lp 0 0 * 2 ^ 16 + get_or lp 1 0 * 2 ^ 8 + get_or lp 2 0

unfoldable pub write_frame : Bytes → Action FramedConn (Unit {0})
write_frame payload = do
  guard (not (ltb max_frame_len (length payload))) (text "whatsapp: frame too large")
  with_header ← gets (λ f. f.write_header)
  modify (λ f. record f { write_header = false })
  on_rw (
      write_all
        ((if with_header then wa_conn_header else []) ++ (be24 (length payload) ++ payload)))

unfoldable pub consume_header : Action FramedConn (Unit {0})
consume_header = do
  hdr ← on_rw (read_full 4)
  guard (get_or hdr 0 0 == b'W' && get_or hdr 1 0 == b'A')
      (text "whatsapp: missing WA connection header")
  modify (λ f. record f { read_header = false })

unfoldable pub read_frame : Action FramedConn Bytes
read_frame = do
  expected ← gets (λ f. f.read_header)
  if expected then consume_header else pure tt
  lp ← on_rw (read_full 3)
  let n = of_be24 lp
  guard (not (ltb max_frame_len n)) (text "whatsapp: frame length exceeds max")
  on_rw (read_full n)
