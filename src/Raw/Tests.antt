-- ===== src/Raw/Tests.antt =====
-- The theorems on the raw transport at concrete inputs.
use noisecat.Base.{
  ℕ, ◌≤◌, ◌++◌, ◌≡◌, inr, refl, arith, true, false, none, some, List, [], ◌∷◌, Bytes, length, ret,
  raise, eof, open_stream,
}
use noisecat.Flynn.Parts.{cut, concat}
use noisecat.Flynn.Toy.{toy, toy-IsCipher, toy-IsHandshake, toy_left, toy_talk}
use noisecat.Raw.Conn.{client, server, handshake, read, write}
use noisecat.Raw.Conn.Established.{ready}
use noisecat.Raw.Conn.Session.{reads, pending, raw_reads-write}
use noisecat.Raw.Conn.Channel.{reads_up_to, Follows, raw_refines}
use noisecat.Raw.Conn.Handshake.{raw_handshake_agree}
use noisecat.Raw.Conn.Faults.{read_drops_buffer}

abbrev hello : Bytes
hello = 1 ∷ 2 ∷ 3 ∷ []

abbrev sizes : List ℕ
sizes = 2 ∷ []

one_part : (length (cut 65519 3 hello)) ≡ 1
unfolding cut
one_part = refl

raw_reads-write_example :
    (wire : Bytes) × (s' s2 : ℕ) × (r buf' : Bytes) × (ps : List Bytes) × (write toy hello
        (ready toy (open_stream [] []) true 2 none 0 5 [])
      ≡ ret 3 (ready toy (open_stream [] ([] ++ wire)) true 2 none 0 s' []))
    × (reads toy sizes (ready toy (open_stream (wire ++ 9 ∷ []) []) false 3 none 5 0 [])
        ≡ ret r (pending toy toy-IsCipher false 3 none 0 (9 ∷ []) [] s2 buf' ps))
    × (r ++ (buf' ++ concat ps) ≡ hello)
    × (length sizes ≤ length r)
raw_reads-write_example =
    raw_reads-write toy toy-IsCipher hello [] [] [] (9 ∷ []) [] true false 2 3 none none 5 0 0 sizes
      (omega arith) (omega arith) (omega arith, tt) (omega (arith, one_part))
      (omega (arith, one_part, toy_left))

raw_refines_example :
    Follows toy toy-IsCipher true false 2 2 none none 0 0 [] [] []
      (reads_up_to 2)
      5
      (7 ∷ [])
      (hello ∷ [])
raw_refines_example =
    raw_refines toy toy-IsCipher true false 2 2 none none 0 0 [] [] [] (reads_up_to 2) 5 (7 ∷ [])
      (hello ∷ []) (omega arith) (omega arith)
      (omega (arith, toy_left), (omega arith, tt), (omega arith, tt))
      (omega arith, inr (omega arith))

raw_handshake_agree_example :
    (m n : Bytes) × (ha hb : ℕ) × (p : ℕ × ℕ) × ((rest o : Bytes)
      → handshake toy (client toy (open_stream (n ++ rest) o) 2)
        ≡ ret tt (ready toy (open_stream rest (o ++ m)) true 2 (some ha) p.1 p.0 []))
    × ((rest o : Bytes)
        → handshake toy (server toy (open_stream (m ++ rest) o) 2)
          ≡ ret tt (ready toy (open_stream rest (o ++ n)) false 2 (some hb) p.0 p.1 []))
raw_handshake_agree_example =
    raw_handshake_agree toy toy-IsHandshake 2 2 0 0 refl refl refl refl refl (omega arith) toy_talk

read_drops_buffer_example :
    read toy 4 (ready toy (open_stream [] []) true 2 none 0 0 hello)
    ≡ raise eof (ready toy (open_stream [] []) true 2 none 0 0 [])
read_drops_buffer_example =
    read_drops_buffer toy true 2 none 0 0 [] hello 4 (omega arith) (omega arith)
