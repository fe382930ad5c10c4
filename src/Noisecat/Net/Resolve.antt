-- ===== src/Noisecat/Net/Resolve.antt =====
-- The transport that ParseConfig and resolveTransport come to together, and the time limit.
use noisecat.Base.{
  ℕ, ◌≤◌, ◌<◌, ◌*◌, ◌^◌, ◌%◌, ◌≡◌, ◌≢◌, ◌⊎◌, ◌∙◌, inl, inr, sym, ap, refl, arith, Bool, true, false,
  not, some, [], String, bytes_of, says, is_blank, ◌==◌, ==_iff, ltb, lt→ltb, ltb→lt, ◌↔◌, ltb→lt,
  ◌↔◌, Bool-cases, if◌then◌else◌, ℤ, pos, negsuc, wrap64, ok, suc, ◌+◌, ◌/◌,
}
use noisecat.Results.{>>=-eq-ok, if-eq-ok}
use noisecat.Noisecat.Names.{Protocol, dh_curve25519, dh_secp256k1, parse_protocol_name}
use noisecat.Noisecat.Config.{Config}
use noisecat.Noisecat.Keys.{Env, load_secp256k1_keypair}
use noisecat.Noisecat.Noise.{
  NoiseConfig, set_protocol, select_bolt8, bolt8_remote, build_noise25519_config, parse_noise,
}
use noisecat.Noisecat.Parse.{
  check_flags, select_whatsapp, parse_connection, parse_keygen, parse_config,
}
use noisecat.Noisecat.Net.{
  Transport, raw, noisesocket, bolt8, whatsapp, udp, refuse, resolve_transport, seconds,
}

-- The transports' own DH functions.
abbrev pub Speaks : Transport → ℕ → Type 0
Speaks bolt8 dh = dh ≡ dh_secp256k1
Speaks whatsapp dh = dh ≡ dh_curve25519
Speaks raw dh = dh ≢ dh_secp256k1
Speaks noisesocket dh = dh ≢ dh_secp256k1
Speaks udp dh = dh ≢ dh_secp256k1

refuse_sound :
    (b : Bool) (t u : Transport) (why : String) → refuse b t why ≡ ok u → (b ≡ true) × (t ≡ u)
unfolding refuse
refuse_sound true t u why h = (refl, cc)
refuse_sound false t u why h = absurd (cc h)

not_secp : (dh : ℕ) → not (dh == dh_secp256k1) ≡ true → dh ≢ dh_secp256k1
not_secp dh h = λ e. absurd (ground arith)

spoken :
    (b : Bool) (t u : Transport) (why : String) (dh : ℕ)
    → refuse b t why ≡ ok u
    → (b ≡ true → Speaks t dh)
    → Speaks u dh
spoken b t u why dh h speaks =
    let (fits, same) = refuse_sound b t u why h in rw (sym same) (speaks fits)

-- A transport is only chosen for a DH function that it speaks: bolt8 for secp256k1, whatsapp for
-- Curve25519, the others for any but secp256k1.
pub resolve_transport-Speaks :
    (c : Config) (t : Transport) → resolve_transport c ≡ ok t → Speaks t c.dh_func
unfolding resolve_transport
resolve_transport-Speaks c t h =
    let name = if is_blank c.transport then bytes_of "raw" else c.transport in
    let other = not_secp c.dh_func in
    elim (if-eq-ok c.udp _ _ h) [
      | inl (e, h1) ↦ spoken _ udp t _ c.dh_func h1 other
      | inr (e, h1) ↦ elim (if-eq-ok (says name "raw") _ _ h1) [
        | inl (e, h2) ↦ spoken _ raw t _ c.dh_func h2 other
        | inr (e, h2) ↦ elim (if-eq-ok (says name "noisesocket") _ _ h2) [
          | inl (e, h3) ↦ spoken _ noisesocket t _ c.dh_func h3 other
          | inr (e, h3) ↦ elim (if-eq-ok (says name "bolt8") _ _ h3) [
            | inl (e, h4) ↦ spoken _ bolt8 t _ c.dh_func h4 (==_iff c.dh_func dh_secp256k1).0
            | inr (e, h4) ↦ elim (if-eq-ok (says name "whatsapp") _ _ h4) [
              | inl (e, h5) ↦ spoken _ whatsapp t _ c.dh_func h5 (==_iff c.dh_func dh_curve25519).0
              | inr (e, h5) ↦ absurd (cc h5)
            ]
          ]
        ]
      ]
    ]

-- The configuration that parseNoise leaves behind.
unfoldable chosen : Protocol → Config → Config
chosen p c = if p.dh_func == dh_secp256k1 then select_bolt8 (set_protocol p c) else set_protocol p c

chosen-dh_func : (p : Protocol) (c : Config) → (chosen p c).dh_func ≡ p.dh_func
unfolding chosen
chosen-dh_func p c = elim (Bool-cases (p.dh_func == dh_secp256k1)) [
  | inl e ↦ simp e refl
  | inr e ↦ simp e refl
]

module _ (env : Env) where
  -- What parseNoise makes of the configuration.
  parse_noise_lem :
      (c c' : Config) (nc : NoiseConfig)
      → parse_noise env c ≡ ok (nc, c')
      → (p : Protocol) × (c' ≡ chosen p c)
  unfolding parse_noise chosen
  parse_noise_lem c c' nc h =
      let (p, parsed, h1) = >>=-eq-ok (parse_protocol_name c.protocol) _ h in
      elim (Bool-cases (p.dh_func == dh_secp256k1)) [
        | inl e ↦
            let h2 = simp e at h1 in
            let (kp, loaded, h3) = >>=-eq-ok (load_secp256k1_keypair env c.l_static) _ h2 in
            let (rs, known, h4) = >>=-eq-ok (bolt8_remote env (set_protocol p c)) _ h3 in
            (p, simp e (cc h4))
        | inr e ↦
            let h2 = simp e at h1 in
            let (built, made, h3) =
              >>=-eq-ok (build_noise25519_config env (set_protocol p c) c.protocol (not c.listen)) _
                h2 in
            (p, simp e (cc h3))
      ]

  -- With the raw transport the flags leave WhatsApp's protocol alone.
  select_whatsapp_raw :
      (c c' : Config)
      → (c.transport ≡ []) ⊎ (c.transport ≡ bytes_of "raw")
      → select_whatsapp env c ≡ ok c'
      → c' ≡ c
  unfolding select_whatsapp
  select_whatsapp_raw c c' is_raw h =
      let other : says c.transport "whatsapp" ≡ false = elim is_raw [
        | inl e ↦ ap (λ x. says x "whatsapp") e
        | inr e ↦ ap (λ x. says x "whatsapp") e
      ] in
      cc (simp other at h)

  resolve_raw :
      (c : Config) (p : Protocol)
      → (c.transport ≡ []) ⊎ (c.transport ≡ bytes_of "raw")
      → c.udp ≡ false
      → resolve_transport (chosen p c) ≡ ok (if p.dh_func == dh_secp256k1 then bolt8 else raw)
  unfolding resolve_transport refuse chosen
  resolve_raw c p is_raw tcp = elim (Bool-cases (p.dh_func == dh_secp256k1)) [
    | inl e ↦ elim is_raw [ inl r ↦ simp (e, r, tcp) refl | inr r ↦ simp (e, r, tcp) refl ]
    | inr e ↦ elim is_raw [ inl r ↦ simp (e, r, tcp) refl | inr r ↦ simp (e, r, tcp) refl ]
  ]

  -- What ParseConfig accepts without -u and with the default transport has a transport: bolt8 for a
  -- protocol with secp256k1 and raw for any other.
  pub parse_config-resolve_transport :
      (c c' : Config) (nc : NoiseConfig)
      → (c.transport ≡ []) ⊎ (c.transport ≡ bytes_of "raw")
      → c.udp ≡ false
      → parse_config env c ≡ ok (some nc, c')
      → resolve_transport c' ≡ ok (if c'.dh_func == dh_secp256k1 then bolt8 else raw)
  unfolding parse_config parse_connection parse_keygen
  parse_config-resolve_transport c c' nc is_raw tcp h = elim (if-eq-ok c.keygen _ _ h) [
    | inl (e, h1) ↦
        let (p, parsed, h2) = >>=-eq-ok (parse_protocol_name c.protocol) _ h1 in absurd (cc h2)
    | inr (e, h1) ↦
        let (u, checked, h2) = >>=-eq-ok (check_flags env c) _ h1 in
        let (c1, selected, h3) = >>=-eq-ok (select_whatsapp env c) _ h2 in
        let ((nc', c2), made, h4) = >>=-eq-ok (parse_noise env c1) _ h3 in
        let same : c1 ≡ c = select_whatsapp_raw c c1 is_raw selected in
        let last : c2 ≡ c' = cc h4 in
        let (p, is) = parse_noise_lem c c2 nc' (ap (parse_noise env) (sym same) ∙ made) in
        let whole : c' ≡ chosen p c = sym last ∙ is in
        let dh = ap (λ x. x.dh_func) whole ∙ chosen-dh_func p c in
        ap resolve_transport whole
        ∙ (resolve_raw c p is_raw tcp
            ∙ ap (λ d. ok (if d == dh_secp256k1 then bolt8 else raw)) (sym dh))
  ]

seconds_exact : (n : ℕ) → n ≤ 9223372036 → seconds (pos n) ≡ pos (n * 1000000000)
unfolding seconds wrap64
seconds_exact n h =
    let small : (n * 1000000000) % 2 ^ 64 ≡ n * 1000000000 = omega arith in
    let below : n * 1000000000 < 2 ^ 63 = omega arith in
    simp (small, lt→ltb (n * 1000000000) (2 ^ 63) below) refl

seconds_limit : (n : ℕ) → seconds (pos n) ≡ pos (n * 1000000000) → n ≤ 9223372036
unfolding seconds wrap64
seconds_limit n h = elim (Bool-cases (ltb ((n * 1000000000) % 2 ^ 64) (2 ^ 63))) [
  | inl e ↦
      let same : pos ((n * 1000000000) % 2 ^ 64) ≡ pos (n * 1000000000) = simp e at h in
      let value : (n * 1000000000) % 2 ^ 64 ≡ n * 1000000000 = cc in
      let small = ltb→lt ((n * 1000000000) % 2 ^ 64) (2 ^ 63) e in omega arith
  | inr e ↦ absurd (cc (simp e at h))
]

-- The signed 64-bit number that a number wraps around to.
abbrev pub WrapsTo : ℕ → ℤ → Type 0
WrapsTo x (pos v) = (v < 2 ^ 63) × (q : ℕ) × (v + q * 2 ^ 64 ≡ x)
WrapsTo x (negsuc m) = (m < 2 ^ 63) × (q : ℕ) × (q * 2 ^ 64 ≡ x + suc m)

wrap64-WrapsTo : (x : ℕ) → WrapsTo x (wrap64 x)
unfolding wrap64
wrap64-WrapsTo x = elim (Bool-cases (ltb (x % 2 ^ 64) (2 ^ 63))) [
  | inl e ↦ let low = ltb→lt (x % 2 ^ 64) (2 ^ 63) e in rw e (low, x / 2 ^ 64, omega arith)
  | inr e ↦
      let high : 2 ^ 63 ≤ x % 2 ^ 64 = ground arith in
      rw e (omega arith, x / 2 ^ 64 + 1, omega arith)
]

-- The time limit of the transports is the signed 64-bit number to which -w in nanoseconds wraps around,
-- which is exact up to 9223372036 seconds and no further.
pub seconds_iff :
    (n : ℕ)
    → WrapsTo (n * 1000000000) (seconds (pos n))
      × ((seconds (pos n) ≡ pos (n * 1000000000)) ↔ (n ≤ 9223372036))
unfolding seconds
seconds_iff n = (wrap64-WrapsTo (n * 1000000000), (seconds_limit n, seconds_exact n))
