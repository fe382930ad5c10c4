-- ===== src/Noisesocket/Tests.antt =====
-- The theorems on the NoiseSocket transport at concrete inputs.
mod Negotiated
use noisecat.Base.{
  ℕ, ◌≤◌, take, zero, suc, if◌then◌else◌, ◌∙◌, ◌+◌, ◌++◌, ◌≡◌, refl, ap, arith, true, false, none,
  some, List, [], ◌∷◌, Bytes, length, replicate, ret, open_stream, ok, ◌==◌,
}
use noisecat.Flynn.Parts.{cut}
use noisecat.Flynn.Toy.{toy, toy-IsCipher, toy-IsHandshake, toy_left, toy_talk}
use noisecat.Noisesocket.Framing.Frames.{build_prologue_injective}
use noisecat.Noisesocket.Neg.{Base64}
use noisecat.Noisesocket.Neg.RoundTrip.{IsPlain, IsCodec}
use noisecat.Noisesocket.Conn.{client, server, handshake, write}
use noisecat.Noisesocket.Conn.Rounds.{shaking}
use noisecat.Noisesocket.Conn.Handshake.{done, handshake_both_ends}
use noisecat.Noisesocket.Conn.Session.{ready, reads}
use noisecat.Noisesocket.Conn.Calls.{conn_reads-write}

abbrev pub hello : Bytes
hello = 1 ∷ 2 ∷ 3 ∷ []

abbrev sizes : List ℕ
sizes = 2 ∷ 1 ∷ 7 ∷ []

one_part : length (cut 65517 3 hello) ≡ 1
unfolding cut
one_part = refl

conn_reads-write_example :
    (wire : Bytes) × (s' n : ℕ) × (write toy hello
        (ready toy (open_stream [] []) true 2 [] none 0 5 [])
      ≡ ret 3 (ready toy (open_stream [] ([] ++ wire)) true 2 [] none 0 s' []))
    × (n ≤ 3)
    × (reads toy (take n sizes) (ready toy (open_stream (wire ++ 9 ∷ []) []) false 2 [] none 5 0 [])
        ≡ ret hello (ready toy (open_stream (9 ∷ []) []) false 2 [] none s' 0 []))
conn_reads-write_example =
    conn_reads-write toy toy-IsCipher hello [] [] [] (9 ∷ []) [] [] [] true false 2 2 none none 5 0
      0 sizes (omega arith) (omega arith) (omega (arith, one_part, toy_left))

handshake_both_ends_example :
    (m n : Bytes) × (ha hb : ℕ) × (p : ℕ × ℕ) × ((rest o : Bytes)
      → handshake toy (client toy (open_stream (n ++ rest) o) 2 hello [])
        ≡ ret tt (done toy (shaking toy (open_stream rest (o ++ m)) true 2 hello [] ha (some p))))
    × ((rest o : Bytes)
        → handshake toy (server toy (open_stream (m ++ rest) o) 2 hello [])
          ≡ ret tt
              (done toy (shaking toy (open_stream rest (o ++ n)) false 2 hello [] hb (some p))))
handshake_both_ends_example =
    handshake_both_ends toy toy-IsHandshake 2 2 hello [] [] 0 0 (omega arith) refl refl refl
      (omega arith) toy_talk

build_prologue_injective_example : (hello ≡ hello) × (hello ≡ hello)
build_prologue_injective_example =
    build_prologue_injective hello hello hello hello (omega arith) (omega arith) refl

-- A code without semicolons: as many letters A as the byte says, and a B.
abbrev pub letters : Bytes → Bytes
letters [] = []
letters (b ∷ bs) = replicate b b'A' ++ b'B' ∷ letters bs

abbrev pub unletters : ℕ → Bytes → Bytes
unletters n [] = []
unletters n (c ∷ cs) = if c == b'A' then unletters (suc n) cs else n ∷ unletters 0 cs

abbrev pub toy_code : Base64
toy_code = record { encode = letters; decode = λ b. ok (unletters 0 b) }

unletters-replicate :
    (k n : ℕ) (rest : Bytes)
    → unletters n (replicate k b'A' ++ b'B' ∷ rest) ≡ (n + k) ∷ unletters 0 rest
unletters-replicate zero n rest = let same : n + 0 ≡ n = omega arith in rw same refl
unletters-replicate (suc k) n rest =
    let same : suc n + k ≡ n + suc k = omega arith in
    unletters-replicate k (suc n) rest ∙ rw same refl

unletters-letters : (b : Bytes) → unletters 0 (letters b) ≡ b
unletters-letters [] = refl
unletters-letters (b ∷ bs) =
    let same : 0 + b ≡ b = omega arith in
    unletters-replicate b 0 (letters bs) ∙ rw (same, unletters-letters bs) refl

IsPlain-letters : (k : ℕ) (rest : Bytes) → IsPlain rest → IsPlain (replicate k b'A' ++ b'B' ∷ rest)
IsPlain-letters zero rest h = (refl, h)
IsPlain-letters (suc k) rest h = (refl, IsPlain-letters k rest h)

letters-IsPlain : (b : Bytes) → IsPlain (letters b)
letters-IsPlain [] = tt
letters-IsPlain (b ∷ bs) = IsPlain-letters b (letters bs) (letters-IsPlain bs)

pub toy_code-IsCodec : IsCodec toy_code
toy_code-IsCodec = record {
  encode-IsPlain = letters-IsPlain;
  decode-encode = λ b. ap ok (unletters-letters b);
}
