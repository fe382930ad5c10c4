-- ===== src/Raw/Conn/Channel.antt =====
-- One direction of an established connection, from a write at one end to a read at the other, against
-- a queue of bytes.
use noisecat.Base.{
  ℕ, suc, ◌+◌, ◌<◌, ◌≤◌, ◌++◌, ◌≡◌, ◌⊎◌, ◌∙◌, inl, inr, ap, sym, refl, arith, Bool, Option, none,
  some, List, [], ◌∷◌, Bytes, length, take, drop, All, All-append, take-append-drop, length-take,
  append_assoc, append-nil, length-append, ret, raise, Outcome, open_stream,
}
use noisecat.Flynn.{NoiseLibrary, IsCipher}
use noisecat.Flynn.Parts.{cut, concat, concat-cut, cut_short, cut_some}
use noisecat.Flynn.Wire.{prefixed, wire_of, steps}
use noisecat.Raw.Conn.{Conn, max_fragment, read, write}
use noisecat.Raw.Conn.Established.{ready, read_buffered_lem}
use noisecat.Raw.Conn.Session.{pending, read_one, write_lem}

pub data Op : Type 0 where
  writes : Bytes → Op
  reads_up_to : ℕ → Op

-- The queue's side: a write puts bytes at its end, a read takes at least one from its front, no more
-- than it has room for.
abbrev pub Queued : Op → Bytes → Bytes → Bytes → Type 0
Queued (writes p) q r q' = (r ≡ []) × (q' ≡ q ++ p)
Queued (reads_up_to n) q r q' = (q ≡ r ++ q') × (length r ≤ n) × (0 < length r)

concat-append : (ps qs : List Bytes) → concat (ps ++ qs) ≡ concat ps ++ concat qs
concat-append [] qs = refl
concat-append (p ∷ ps) qs =
    ap (λ x. p ++ x) (concat-append ps qs) ∙ sym (append_assoc p (concat ps) (concat qs))

module _ (l : NoiseLibrary) (c : IsCipher l) where
  open l use {Config, HandshakeState, CipherState, messages}
  open c use {remaining, sealed, stepped, remaining-stepped}

  -- The end that writes and the end that reads.
  pub record System : Type 0 where
    pub near : Conn l
    pub far : Conn l

  -- What the near end has sent arrives at the far end.
  abbrev pub carry : Conn l → Conn l → System
  carry near far = record {
    near = record near { conn = record near.conn { outbound = [] } };
    far = record far {
      conn = record far.conn { inbound = far.conn.inbound ++ near.conn.outbound };
    };
  }

  abbrev pub sent_to : Conn l → Outcome (Conn l) ℕ → Option (Bytes × System)
  sent_to far (ret n near) = some ([], carry near far)
  sent_to far (raise e near) = none

  abbrev pub handed_out : Conn l → Outcome (Conn l) Bytes → Option (Bytes × System)
  handed_out near (ret b far) = some (b, record { near = near; far = far })
  handed_out near (raise e far) = none

  -- A call and what it returns of the bytes; none where it fails.
  unfoldable pub exec : Op → System → Option (Bytes × System)
  exec (writes p) s = sent_to s.far (write l p s.near)
  exec (reads_up_to n) s = handed_out s.near (read l n s.far)

  wire_of-append :
      (s : CipherState) (ps qs : List Bytes)
      → wire_of l c (λ q. q) s (ps ++ qs)
        ≡ wire_of l c (λ q. q) s ps ++ wire_of l c (λ q. q) (steps l c s ps) qs
  wire_of-append s [] qs = refl
  wire_of-append s (p ∷ ps) qs =
      ap (λ x. prefixed (sealed p s) ++ x) (wire_of-append (stepped s) ps qs)
      ∙ sym (
          append_assoc (prefixed (sealed p s)) (wire_of l c (λ q. q) (stepped s) ps)
            (wire_of l c (λ q. q) (steps l c (stepped s) ps) qs))

  steps-append :
      (s : CipherState) (ps qs : List Bytes)
      → steps l c s (ps ++ qs) ≡ steps l c (steps l c s ps) qs
  steps-append s [] qs = refl
  steps-append s (p ∷ ps) qs = steps-append (stepped s) ps qs

  remaining-steps :
      (s : CipherState) (ps : List Bytes)
      → length ps ≤ remaining s
      → remaining (steps l c s ps) + length ps ≡ remaining s
  remaining-steps s [] h = omega arith
  remaining-steps s (p ∷ ps) h =
      let here : suc (remaining (stepped s)) ≡ remaining s = remaining-stepped s (omega arith) in
      let rec = remaining-steps (stepped s) ps (omega arith) in omega arith

  module _ (client client' : Bool) (cfg cfg' : Config) (h h' : Option HandshakeState)
      (t t' : CipherState) (i kept o : Bytes) where
    -- The messages `ps` are on their way and `buf` is what the far end has not handed out.
    abbrev pub channel : CipherState → Bytes → List Bytes → System
    channel s buf ps = record {
      near = ready l (open_stream i []) client cfg h t (steps l c s ps) kept;
      far = pending l c client' cfg' h' t' [] o s buf ps;
    }

    -- The messages fit and are not empty, and the nonces are enough for them.
    abbrev pub Fits : CipherState → List Bytes → Type 0
    Fits s ps =
        (length ps ≤ remaining s)
        × All (λ q. length q ≤ max_fragment l) ps
        × All (λ q. 0 < length q) ps

    -- A write needs nonces for its fragments; a read needs room, and either as much in the buffer as it
    -- has room for or a message on its way, since a partial read with none is lost (Faults).
    abbrev pub Ready : Op → CipherState → Bytes → List Bytes → Type 0
    Ready (writes p) s buf ps = length ps + length (cut (max_fragment l) (length p) p) ≤ remaining s
    Ready (reads_up_to n) s buf ps = (0 < n) × ((n ≤ length buf) ⊎ (0 < length ps))

    cut_all : (p : Bytes) → concat (cut (max_fragment l) (length p) p) ≡ p
    cut_all p = concat-cut (max_fragment l) (length p) p (omega arith) (omega arith)

    arrives :
        (s : CipherState) (ps qs : List Bytes)
        → (wire_of l c (λ q. q) s ps ++ []) ++ ([] ++ wire_of l c (λ q. q) (steps l c s ps) qs)
          ≡ wire_of l c (λ q. q) s (ps ++ qs) ++ []
    arrives s ps qs =
        ap (λ x. x ++ wire_of l c (λ q. q) (steps l c s ps) qs)
          (append-nil (wire_of l c (λ q. q) s ps))
        ∙ (sym (wire_of-append s ps qs) ∙ sym (append-nil (wire_of l c (λ q. q) s (ps ++ qs))))

    exec_writes :
        (p : Bytes) (s : CipherState) (buf : Bytes) (ps : List Bytes)
        → 2 ≤ messages cfg
        → Fits s ps
        → Ready (writes p) s buf ps
        → exec (writes p) (channel s buf ps)
          ≡ some ([], channel s buf (ps ++ cut (max_fragment l) (length p) p))
    unfolding exec
    exec_writes p s buf ps both (few, short, full) left =
        let parts : List Bytes = cut (max_fragment l) (length p) p in
        let enough : length parts ≤ remaining (steps l c s ps) =
          omega (arith, remaining-steps s ps few) in
        ap (sent_to (channel s buf ps).far)
          (write_lem l c client cfg h t (steps l c s ps) p i [] kept both enough)
        ∙ simp (arrives s ps parts, steps-append s ps parts) refl

    exec_reads :
        (n : ℕ) (s : CipherState) (buf : Bytes) (ps : List Bytes)
        → 2 ≤ messages cfg'
        → Fits s ps
        → Ready (reads_up_to n) s buf ps
        → (r : Bytes) × (s' : CipherState) × (buf' : Bytes) × (ps' : List Bytes) × (exec
              (reads_up_to n)
              (channel s buf ps)
            ≡ some (r, channel s' buf' ps'))
          × Queued (reads_up_to n) (buf ++ concat ps) r (buf' ++ concat ps')
          × Fits s' ps'
    unfolding exec
    exec_reads n s buf [] both fits (positive, inr some_left) = absurd (omega arith)
    exec_reads n s buf [] both fits (positive, inl enough) =
        let taken = read_buffered_lem l c [] o buf client' cfg' h' s t' n both positive enough in
        (
          take n buf,
          s,
          drop n buf,
          [],
          ap (handed_out (channel s buf []).near) taken,
          (
            ap (λ x. x ++ []) (sym (take-append-drop n buf))
                ∙ append_assoc (take n buf) (drop n buf) [],
            omega (arith, length-take n buf),
            omega (arith, length-take n buf),
          ),
          fits,
        )
    exec_reads n s buf (p ∷ ps) both (few, short, full) (positive, some_left) =
        let (r, buf', ps', s', e, same, more, left, short', room, some_read, full', stays) =
          read_one l c client' cfg' h' t' [] o n buf p ps s both positive few short full in
        (
          r,
          s',
          buf',
          ps',
          ap (handed_out (channel s buf (p ∷ ps)).near) e
              ∙ ap
                  (λ x. some (
                    r,
                    record {
                      near = ready l (open_stream i []) client cfg h t x kept;
                      far = pending l c client' cfg' h' t' [] o s' buf' ps';
                    },
                  ))
                  (sym stays),
          (sym same, room, some_read),
          (left, short', full'),
        )

    -- A step of the queue, for a step of the channel.
    abbrev pub Follows : Op → CipherState → Bytes → List Bytes → Type 0
    Follows op s buf ps =
        (r : Bytes) × (s' : CipherState) × (buf' : Bytes) × (ps' : List Bytes) × (exec op
            (channel s buf ps)
          ≡ some (r, channel s' buf' ps'))
        × Queued op (buf ++ concat ps) r (buf' ++ concat ps')
        × Fits s' ps'

    -- An established connection refines a queue of bytes, in each direction: with nonces enough for a
    -- write, and for a read with room and either as many bytes buffered as it has room for or a message
    -- on its way, the call succeeds; a write of any length puts its bytes at the end of the queue, a read
    -- takes at least one from its front, no more than it has room for, and the two ends are again those
    -- of the queue that is left.
    pub raw_refines :
        (op : Op) (s : CipherState) (buf : Bytes) (ps : List Bytes)
        → 2 ≤ messages cfg
        → 2 ≤ messages cfg'
        → Fits s ps
        → Ready op s buf ps
        → Follows op s buf ps
    raw_refines (reads_up_to n) s buf ps both both' fits ready_ =
        exec_reads n s buf ps both' fits ready_
    raw_refines (writes p) s buf ps both both' (few, short, full) left =
        let parts : List Bytes = cut (max_fragment l) (length p) p in
        (
          [],
          s,
          buf,
          ps ++ parts,
          exec_writes p s buf ps both (few, short, full) left,
          (
            refl,
            ap (λ x. buf ++ x) (concat-append ps parts ∙ ap (λ x. concat ps ++ x) (cut_all p))
                ∙ sym (append_assoc buf (concat ps) p),
          ),
          (
            omega (arith, length-append ps parts),
            All-append (λ q. length q ≤ max_fragment l) ps parts short
                (cut_short (max_fragment l) (length p) p),
            All-append (λ q. 0 < length q) ps parts full
                (cut_some (max_fragment l) (length p) p (omega arith)),
          ),
        )
