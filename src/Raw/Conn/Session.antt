-- ===== src/Raw/Conn/Session.antt =====
-- What the two ends of conn.go see of one another over many calls.
use noisecat.Base.{
  ℕ, suc, ◌+◌, ◌-◌, ◌<◌, ◌≤◌, ◌++◌, ◌≡◌, ◌∙◌, ap, sym, refl, arith, Bool, true, false, Option, List,
  [], ◌∷◌, Bytes, length, take, drop, All, leb, Bool-cases, inl, inr, take-append-drop,
  append_assoc, length-take, length-append, ret, Action, ◌>>=◌, ◌>>◌, pure, open_stream,
}
use noisecat.Flynn.{NoiseLibrary, IsCipher}
use noisecat.Flynn.Parts.{cut, concat, concat-cut, cut_short, cut_some}
use noisecat.Flynn.Wire.{prefixed, wire_of, steps}
use noisecat.Raw.Conn.{Conn, max_fragment, read, write, handshake}
use noisecat.Raw.Conn.Established.{ready, read_next_lem, read_buffered_lem, write_loop_lem, two_way}

module _ (l : NoiseLibrary) where
  open l use {Config, HandshakeState, CipherState, messages}

  -- A read into a buffer of each of the sizes, and all that they return.
  pub reads : List ℕ → Action (Conn l) Bytes
  reads [] = pure []
  reads (n ∷ ns) = do a ← read l n; b ← reads ns; pure (a ++ b)

  -- What a read took and left keeps the order of the bytes.
  shuffle :
      (k : ℕ) (buf part more : Bytes)
      → (buf ++ take k part) ++ (drop k part ++ more) ≡ buf ++ (part ++ more)
  shuffle k buf part more =
      append_assoc buf (take k part) (drop k part ++ more)
      ∙ ap (λ x. buf ++ x)
          (sym (append_assoc (take k part) (drop k part) more)
            ∙ ap (λ x. x ++ more) (take-append-drop k part))

  module _ (c : IsCipher l) where
    open c use {remaining, sealed, stepped, remaining-stepped}

    -- The reader's side: what it holds and what is still on the wire.
    abbrev pub pending :
        Bool
        → Config
        → Option HandshakeState
        → CipherState
        → Bytes
        → Bytes
        → CipherState
        → Bytes
        → List Bytes
        → Conn l
    pending client cfg h so rest o si buf ps =
        ready l (open_stream (wire_of l c (λ q. q) si ps ++ rest) o) client cfg h si so buf

    ltb_of : (size : ℕ) (buf : Bytes) → leb size (length buf) ≡ true → size ≤ length buf
    ltb_of size buf h = ground arith

    beyond : (size : ℕ) (buf : Bytes) → leb size (length buf) ≡ false → length buf < size
    beyond size buf h = ground arith

    -- One read: it takes from the front of what is pending, and needs one message at most.
    pub read_one :
        (client : Bool) (cfg : Config) (h : Option HandshakeState) (so : CipherState)
        (rest o : Bytes) (size : ℕ) (buf p : Bytes) (ps : List Bytes) (si : CipherState)
        → 2 ≤ messages cfg
        → 0 < size
        → suc (length ps) ≤ remaining si
        → All (λ q. length q ≤ max_fragment l) (p ∷ ps)
        → All (λ q. 0 < length q) (p ∷ ps)
        → (r buf' : Bytes) × (ps' : List Bytes) × (si' : CipherState) × (read l size
              (pending client cfg h so rest o si buf (p ∷ ps))
            ≡ ret r (pending client cfg h so rest o si' buf' ps'))
          × (r ++ (buf' ++ concat ps') ≡ buf ++ concat (p ∷ ps))
          × (length ps ≤ length ps')
          × (length ps' ≤ remaining si')
          × All (λ q. length q ≤ max_fragment l) ps'
          × (length r ≤ size)
          × (0 < length r)
          × All (λ q. 0 < length q) ps'
          × (steps l c si' ps' ≡ steps l c si (p ∷ ps))
    read_one client cfg h so rest o size buf p ps si both positive left (short, shorts)
          (some_byte, some_bytes) =
        elim (Bool-cases (leb size (length buf))) [
          | inl enough ↦ (
            take size buf,
            drop size buf,
            p ∷ ps,
            si,
            read_buffered_lem l c _ o buf client cfg h si so size both positive (ground arith),
            sym (append_assoc (take size buf) (drop size buf) (concat (p ∷ ps)))
                ∙ ap (λ x. x ++ concat (p ∷ ps)) (take-append-drop size buf),
            omega arith,
            left,
            (short, shorts),
            omega (arith, length-take size buf),
            (let whole = ltb_of size buf enough in omega (arith, length-take size buf)),
            (some_byte, some_bytes),
            refl,
          )
          | inr more ↦
              let some_left : 0 < remaining si = omega arith in
              let k = size - length buf in
              (
                buf ++ take k p,
                drop k p,
                ps,
                stepped si,
                ap (λ x. read l size (ready l (open_stream x o) client cfg h si so buf))
                      (append_assoc (prefixed (sealed p si)) (wire_of l c (λ q. q) (stepped si) ps)
                        rest)
                    ∙ read_next_lem l c p _ o buf client cfg h si so size some_left short both
                        (ground arith),
                shuffle k buf p (concat ps),
                omega arith,
                omega (arith, remaining-stepped si some_left),
                shorts,
                omega (arith, length-append buf (take k p), length-take k p, beyond size buf more),
                omega (arith, length-append buf (take k p), length-take k p, beyond size buf more),
                some_bytes,
                refl,
              )
        ]

    -- Reads into buffers of any sizes, no more of them than there are messages on the wire, return
    -- the pending bytes in order: what they return, then what the buffer keeps, then the messages
    -- that are left, are what was there before.
    pub reads_conserve :
        (sizes : List ℕ) (client : Bool) (cfg : Config) (h : Option HandshakeState)
        (so : CipherState) (rest o buf : Bytes) (ps : List Bytes) (si : CipherState)
        → 2 ≤ messages cfg
        → All (λ n. 0 < n) sizes
        → length sizes ≤ length ps
        → length ps ≤ remaining si
        → All (λ q. length q ≤ max_fragment l) ps
        → All (λ q. 0 < length q) ps
        → (r buf' : Bytes) × (ps' : List Bytes) × (si' : CipherState) × (reads sizes
              (pending client cfg h so rest o si buf ps)
            ≡ ret r (pending client cfg h so rest o si' buf' ps'))
          × (r ++ (buf' ++ concat ps') ≡ buf ++ concat ps)
          × (length sizes ≤ length r)
    unfolding reads
    reads_conserve [] client cfg h so rest o buf ps si both pos few left short full =
        ([], buf, ps, si, refl, refl, omega arith)
    reads_conserve (n ∷ ns) client cfg h so rest o buf [] si both pos few left short full =
        absurd (omega arith)
    reads_conserve (n ∷ ns) client cfg h so rest o buf (p ∷ ps) si both (pos, poss) few left short
          full =
        let (r, buf', ps', si', e, same, more, left', short', few', some_read, full', stays) =
          read_one client cfg h so rest o n buf p ps si both pos left short full in
        let (r2, buf2, ps2, si2, e2, same2, count2) =
          reads_conserve ns client cfg h so rest o buf' ps' si' both poss (omega arith) left' short'
            full' in
        (
          r ++ r2,
          buf2,
          ps2,
          si2,
          simp (◌>>=◌, e, e2) refl,
          append_assoc r r2 (buf2 ++ concat ps2) ∙ ap (λ x. r ++ x) same2 ∙ same,
          omega (arith, length-append r r2, count2),
        )

    pub write_lem :
        (client : Bool) (cfg : Config) (h : Option HandshakeState) (t s : CipherState)
        (p i o buf : Bytes)
        → 2 ≤ messages cfg
        → length (cut (max_fragment l) (length p) p) ≤ remaining s
        → write l p (ready l (open_stream i o) client cfg h t s buf)
          ≡ ret (length p) (
              ready l
                (open_stream i (o ++ wire_of l c (λ q. q) s (cut (max_fragment l) (length p) p)))
                client
                cfg
                h
                t
                (steps l c s (cut (max_fragment l) (length p) p))
                buf)
    unfolding write handshake
    write_lem client cfg h t s p i o buf both left =
        let whole : 0 + length p ≡ length p = omega arith in
        simp
          (
            ◌>>=◌,
            ◌>>◌,
            two_way l client (messages cfg) both,
            write_loop_lem l c (length p) p i o buf client cfg h t s 0 (omega arith) left,
            whole,
          )
          refl

    -- With the handshake behind both and nonces enough, a write of any length is written whole and
    -- its length returned; then the peer, whose cipher state is the writer's, reads with any buffers that
    -- have room, at most as many times as the write made messages: each read returns a byte at least, and
    -- the bytes come in order, none lost and none twice.
    pub raw_reads-write :
        (p i o buf rest o' : Bytes) (client client' : Bool) (cfg cfg' : Config)
        (h h' : Option HandshakeState) (s t t' : CipherState) (sizes : List ℕ)
        → 2 ≤ messages cfg
        → 2 ≤ messages cfg'
        → All (λ n. 0 < n) sizes
        → length sizes ≤ length (cut (max_fragment l) (length p) p)
        → length (cut (max_fragment l) (length p) p) ≤ remaining s
        → (wire : Bytes) × (s' s2 : CipherState) × (r buf' : Bytes) × (ps : List Bytes) × (write l p
              (ready l (open_stream i o) client cfg h t s buf)
            ≡ ret (length p) (ready l (open_stream i (o ++ wire)) client cfg h t s' buf))
          × (reads sizes (ready l (open_stream (wire ++ rest) o') client' cfg' h' s t' [])
              ≡ ret r (pending client' cfg' h' t' rest o' s2 buf' ps))
          × (r ++ (buf' ++ concat ps) ≡ p)
          × (length sizes ≤ length r)
    raw_reads-write p i o buf rest o' client client' cfg cfg' h h' s t t' sizes both both' pos few
          left =
        let parts = cut (max_fragment l) (length p) p in
        let (r, buf', ps, s2, e, same, count) =
          reads_conserve sizes client' cfg' h' t' rest o' [] parts s both' pos few left
            (cut_short (max_fragment l) (length p) p)
            (cut_some (max_fragment l) (length p) p (omega arith)) in
        (
          wire_of l c (λ q. q) s parts,
          steps l c s parts,
          s2,
          r,
          buf',
          ps,
          write_lem client cfg h t s p i o buf both left,
          e,
          same ∙ concat-cut (max_fragment l) (length p) p (omega arith) (omega arith),
          count,
        )
