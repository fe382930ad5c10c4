-- ===== src/Noisesocket/Conn/Calls.antt =====
-- What the two ends of conn.go see of one another over many calls.
use noisecat.Base.{
  ℕ, suc, ◌+◌, ◌<◌, ◌≤◌, ◌++◌, ◌≡◌, ◌∙◌, ap, sym, refl, arith, Option, List, [], ◌∷◌, Bytes, length,
  take, drop, All, take-append-drop, append_assoc, length-append, length-drop, ret, ◌>>=◌,
  open_stream, Bool,
}
use noisecat.Flynn.{NoiseLibrary, IsCipher}
use noisecat.Flynn.Parts.{cut, concat, concat-cut, cut_short, cut_some}
use noisecat.Flynn.Wire.{prefixed, wire_of, steps}
use noisecat.Noisesocket.Conn.{Conn, max_body, read, write, handshake}
use noisecat.Noisesocket.Conn.Session.{
  ready, reads, read_next_lem, read_buffered_lem, write_loop_lem,
}

module _ (l : NoiseLibrary) (c : IsCipher l) where
  open l use {Config, HandshakeState, CipherState}
  open c use {remaining, sealed, stepped, remaining-stepped}

  -- The reader's side: what it holds and what is still on the wire.
  abbrev pub pending :
      Bool
      → Config
      → Bytes
      → Option HandshakeState
      → CipherState
      → Bytes
      → Bytes
      → CipherState
      → Bytes
      → List Bytes
      → Conn l
  pending client cfg app h so rest o si buf ps =
      ready l (open_stream (wire_of l c prefixed si ps ++ rest) o) client cfg app h si so buf

  -- One read where the buffer holds something, and one from the next message.
  read_held :
      (client : Bool) (cfg : Config) (app : Bytes) (h : Option HandshakeState) (so : CipherState)
      (rest o : Bytes) (size b : ℕ) (bs : Bytes) (ps : List Bytes) (si : CipherState)
      → 0 < size
      → read l size (pending client cfg app h so rest o si (b ∷ bs) ps)
        ≡ ret (take size (b ∷ bs)) (pending client cfg app h so rest o si (drop size (b ∷ bs)) ps)
  read_held client cfg app h so rest o size b bs ps si positive =
      read_buffered_lem l c _ o (b ∷ bs) app client cfg h si so size positive (omega arith)

  read_fresh :
      (client : Bool) (cfg : Config) (app : Bytes) (h : Option HandshakeState) (so : CipherState)
      (rest o : Bytes) (size : ℕ) (p : Bytes) (ps : List Bytes) (si : CipherState)
      → 0 < size
      → 0 < remaining si
      → length p ≤ max_body l
      → read l size (pending client cfg app h so rest o si [] (p ∷ ps))
        ≡ ret (take size p) (pending client cfg app h so rest o (stepped si) (drop size p) ps)
  read_fresh client cfg app h so rest o size p ps si positive left short =
      ap (λ x. read l size (ready l (open_stream x o) client cfg app h si so []))
        (append_assoc (prefixed (sealed (prefixed p) si)) (wire_of l c prefixed (stepped si) ps)
          rest)
      ∙ read_next_lem l c p _ o app client cfg h si so size left short positive

  -- Enough reads into buffers of any sizes: some of them take all that is pending, in order.
  drained_by :
      (sizes : List ℕ) (client : Bool) (cfg : Config) (app : Bytes) (h : Option HandshakeState)
      (so : CipherState) (rest o buf : Bytes) (ps : List Bytes) (si : CipherState)
      → All (λ n. 0 < n) sizes
      → length (buf ++ concat ps) ≤ length sizes
      → length ps ≤ remaining si
      → All (λ q. length q ≤ max_body l) ps
      → All (λ q. 0 < length q) ps
      → (n : ℕ) × (n ≤ length (buf ++ concat ps))
        × (reads l (take n sizes) (pending client cfg app h so rest o si buf ps)
            ≡ ret
                (buf ++ concat ps)
                (ready l (open_stream rest o) client cfg app h (steps l c si ps) so []))
  unfolding reads
  drained_by sizes client cfg app h so rest o [] [] si pos enough left short full =
      (0, omega arith, refl)
  drained_by [] client cfg app h so rest o [] (p ∷ ps) si pos enough left short (some_byte, full) =
      absurd (omega (arith, length-append p (concat ps)))
  drained_by [] client cfg app h so rest o (b ∷ bs) ps si pos enough left short full =
      absurd (omega arith)
  drained_by (n ∷ ns) client cfg app h so rest o (b ∷ bs) ps si (pos, poss) enough left short full =
      let buf : Bytes = b ∷ bs in
      let (k, few, e) =
        drained_by ns client cfg app h so rest o (drop n buf) ps si poss
          (omega (
            arith,
            length-append buf (concat ps),
            length-append (drop n buf) (concat ps),
            length-drop n buf,
          ))
          left short full in
      (
        suc k,
        omega (
          arith,
          few,
          length-append buf (concat ps),
          length-append (drop n buf) (concat ps),
          length-drop n buf,
        ),
        simp (◌>>=◌, read_held client cfg app h so rest o n b bs ps si pos, e) refl
            ∙ ap
                (λ x. ret x (ready l (open_stream rest o) client cfg app h (steps l c si ps) so []))
                (sym (append_assoc (take n buf) (drop n buf) (concat ps))
                  ∙ ap (λ x. x ++ concat ps) (take-append-drop n buf)),
      )
  drained_by (n ∷ ns) client cfg app h so rest o [] (p ∷ ps) si (pos, poss) enough left
        (short, shorts) (some_byte, full) =
      let some_left : 0 < remaining si = omega arith in
      let (k, few, e) =
        drained_by ns client cfg app h so rest o (drop n p) ps (stepped si) poss
          (omega (
            arith,
            length-append p (concat ps),
            length-append (drop n p) (concat ps),
            length-drop n p,
          ))
          (omega (arith, remaining-stepped si some_left)) shorts full in
      (
        suc k,
        omega (
          arith,
          few,
          length-append p (concat ps),
          length-append (drop n p) (concat ps),
          length-drop n p,
        ),
        simp (◌>>=◌, read_fresh client cfg app h so rest o n p ps si pos some_left short, e) refl
            ∙ ap
                (λ x.
                  ret x (
                    ready l (open_stream rest o) client cfg app h (steps l c (stepped si) ps) so
                      []))
                (sym (append_assoc (take n p) (drop n p) (concat ps))
                  ∙ ap (λ x. x ++ concat ps) (take-append-drop n p)),
      )

  -- With the handshake behind both and nonces enough, a write of any length is written whole and its
  -- length returned, each part behind its body length; then the peer, whose cipher state is the
  -- writer's, reads with buffers of any sizes that have room, as many as there are bytes: some number
  -- of these reads, at most one for each byte, returns exactly the bytes written, in order, and leaves
  -- an empty buffer, what follows on the wire and the writer's cipher state.
  pub conn_reads-write :
      (p i o buf rest o' app app' : Bytes) (client client' : Bool) (cfg cfg' : Config)
      (h h' : Option HandshakeState) (s t t' : CipherState) (sizes : List ℕ)
      → All (λ n. 0 < n) sizes
      → length p ≤ length sizes
      → length (cut (max_body l) (length p) p) ≤ remaining s
      → (wire : Bytes) × (s' : CipherState) × (n : ℕ) × (write l p
            (ready l (open_stream i o) client cfg app h t s buf)
          ≡ ret (length p) (ready l (open_stream i (o ++ wire)) client cfg app h t s' buf))
        × (n ≤ length p)
        × (reads l
              (take n sizes)
              (ready l (open_stream (wire ++ rest) o') client' cfg' app' h' s t' [])
            ≡ ret p (ready l (open_stream rest o') client' cfg' app' h' s' t' []))
  unfolding write handshake
  conn_reads-write p i o buf rest o' app app' client client' cfg cfg' h h' s t t' sizes pos enough
        left =
      let parts = cut (max_body l) (length p) p in
      let whole : 0 + length p ≡ length p = omega arith in
      let all : concat parts ≡ p =
        concat-cut (max_body l) (length p) p (omega arith) (omega arith) in
      let (n, few, e) =
        drained_by sizes client' cfg' app' h' t' rest o' [] parts s pos
          (omega (arith, enough, ap length all)) left (cut_short (max_body l) (length p) p)
          (cut_some (max_body l) (length p) p (omega arith)) in
      (
        wire_of l c prefixed s parts,
        steps l c s parts,
        n,
        write_loop_lem l c (length p) p i o buf app client cfg h t s 0 (omega arith) left
            ∙ rw whole refl,
        omega (arith, few, ap length all),
        e
            ∙ ap
                (λ x.
                  ret x
                    (ready l (open_stream rest o') client' cfg' app' h' (steps l c s parts) t' []))
                all,
      )
