-- ===== src/Noisecat/Main/Roles.antt =====
-- The role of the program in a connection.
use noisecat.Base.{
  ◌≡◌, ◌⊎◌, ◌∙◌, inl, inr, sym, ap, Bool, true, false, not, Option, some, List, Bytes, ◌==◌,
  if◌then◌else◌, wrapped, ok, says,
}
use noisecat.Results.{>>=-eq-ok, require-eq-ok, if-eq-ok, ok-pair}
use noisecat.Noisecat.Names.{dh_secp256k1, parse_protocol_name}
use noisecat.Noisecat.Config.{Config}
use noisecat.Noisecat.Keys.{
  Env, load_secp256k1_keypair, validate_static_key_for_protocol, generate_key_file,
  generate_secp256k1_keypair,
}
use noisecat.Noisecat.Noise.{
  NoiseConfig, set_protocol, pattern_at, pattern_byte_obj, load_psk, load_statics,
  build_noise25519_config, bolt8_remote, parse_noise,
}
use noisecat.Noisecat.Parse.{
  is_whatsapp_protocol, whatsapp_protocol, is_set, check_flags, select_whatsapp, parse_keygen,
  parse_connection, parse_config,
}
use noisecat.Noisecat.Main.{
  Done, prints, starts_client, starts_server, key_is_valid, positional, print_keypair, start,
  run_validate, run_config, main,
}

-- What a parsed configuration that is not for -keygen comes to.
abbrev pub Parsed : Option NoiseConfig → Config → Type 0
Parsed o c = (nc : NoiseConfig) × (o ≡ some nc) × (nc.initiator ≡ not c.listen)

-- The role that fits what the program starts.
abbrev pub Fits : Done → Type 0
Fits key_is_valid = Unit
Fits (prints b) = Unit
Fits (starts_client o c) = (nc : NoiseConfig) × (o ≡ some nc) × (nc.initiator ≡ true)
Fits (starts_server o c) = (nc : NoiseConfig) × (o ≡ some nc) × (nc.initiator ≡ false)

module _ (env : Env) where
  build_initiator :
      (c : Config) (s : Bytes) (initiator : Bool) (nc : NoiseConfig)
      → build_noise25519_config env c s initiator ≡ ok nc
      → nc.initiator ≡ initiator
  unfolding build_noise25519_config
  build_initiator c s initiator nc h =
      let (p, parsed, h1) = >>=-eq-ok (parse_protocol_name s) _ h in
      let (not_secp, h2) = require-eq-ok (not (p.dh_func == dh_secp256k1)) _ _ h1 in
      let ((psk, n), keyed, h3) = >>=-eq-ok (load_psk env c.psk p.psk_placement) _ h2 in
      let ((k, rs), loaded, h4) =
        >>=-eq-ok (load_statics env (pattern_at p.pattern_ pattern_byte_obj) initiator c p) _ h3 in
      cc h4

  parse_noise_role :
      (c c' : Config) (nc : NoiseConfig)
      → parse_noise env c ≡ ok (nc, c')
      → (nc.initiator ≡ not c.listen) × (c'.listen ≡ c.listen)
  unfolding parse_noise
  parse_noise_role c c' nc h =
      let (p, parsed, h1) = >>=-eq-ok (parse_protocol_name c.protocol) _ h in
      elim (if-eq-ok (p.dh_func == dh_secp256k1) _ _ h1) [
        | inl (e, h2) ↦
            let (kp, loaded, h3) = >>=-eq-ok (load_secp256k1_keypair env c.l_static) _ h2 in
            let (rs, known, h4) = >>=-eq-ok (bolt8_remote env (set_protocol p c)) _ h3 in
            let (same, same_c) = ok-pair h4 in
            (sym (ap (λ x. x.initiator) same), sym (ap (λ x. x.listen) same_c))
        | inr (e, h2) ↦
            let (built, made, h3) =
              >>=-eq-ok (build_noise25519_config env (set_protocol p c) c.protocol (not c.listen)) _
                h2 in
            let role = build_initiator (set_protocol p c) c.protocol (not c.listen) built made in
            let (same, same_c) = ok-pair h3 in
            (sym (ap (λ x. x.initiator) same) ∙ role, sym (ap (λ x. x.listen) same_c))
      ]

  select_whatsapp_role : (c c' : Config) → select_whatsapp env c ≡ ok c' → c'.listen ≡ c.listen
  unfolding select_whatsapp
  select_whatsapp_role c c' h = elim (if-eq-ok (says c.transport "whatsapp") _ _ h) [
    | inl (e, h1) ↦
        let (given, h2) = require-eq-ok (is_whatsapp_protocol c.protocol) _ _ h1 in
        let same : record c { protocol = whatsapp_protocol } ≡ c' = cc h2 in
        sym (ap (λ x. x.listen) same)
    | inr (e, h1) ↦ let same : c ≡ c' = cc h1 in sym (ap (λ x. x.listen) same)
  ]

  parse_config_role :
      (c c' : Config) (o : Option NoiseConfig)
      → parse_config env c ≡ ok (o, c')
      → (c'.keygen ≡ true) ⊎ Parsed o c'
  unfolding parse_config parse_connection parse_keygen
  parse_config_role c c' o h = elim (if-eq-ok c.keygen _ _ h) [
    | inl (e, h1) ↦
        let (p, parsed, h2) = >>=-eq-ok (parse_protocol_name c.protocol) _ h1 in
        let (none_made, last) = ok-pair h2 in inl (sym (ap (λ x. x.keygen) last) ∙ e)
    | inr (e, h1) ↦
        let (u, checked, h2) = >>=-eq-ok (check_flags env c) _ h1 in
        let (c1, selected, h3) = >>=-eq-ok (select_whatsapp env c) _ h2 in
        let ((nc, c2), made, h4) = >>=-eq-ok (parse_noise env c1) _ h3 in
        let (role, listens) = parse_noise_role c1 c2 nc made in
        let (given, last) = ok-pair h4 in
        let listens' = select_whatsapp_role c c1 selected in
        inr (nc, sym given, role ∙ (ap not (sym listens) ∙ ap (λ x. not x.listen) last))
  ]

  start-Fits :
      (o : Option NoiseConfig) (c : Config) (d : Done)
      → (c.keygen ≡ true) ⊎ Parsed o c
      → start env o c ≡ ok d
      → Fits d
  unfolding start print_keypair
  start-Fits o c d parsed h = elim (if-eq-ok c.keygen _ _ h) [
    | inl (e, h1) ↦
        let (k, printed, h2) =
          >>=-eq-ok
            (if c.dh_func == dh_secp256k1
              then generate_secp256k1_keypair env
              else generate_key_file env c.dh_func c.cipher_func c.hash_func)
            _ h1 in
        let same : prints k ≡ d = cc h2 in rw (sym same) tt
    | inr (e, h1) ↦ elim parsed [
      | inl keygen ↦ absurd (cc (e, keygen))
      | inr (nc, given, role) ↦ elim (if-eq-ok (not c.listen) _ _ h1) [
        | inl (client, h2) ↦
            let same : starts_client o c ≡ d = cc h2 in rw (sym same) (nc, given, role ∙ client)
        | inr (server, h2) ↦
            let same : starts_server o c ≡ d = cc h2 in rw (sym same) (nc, given, role ∙ server)
      ]
    ]
  ]

  -- Where the program starts a client, it does so with a noise.Config of an initiator, and with one of
  -- a responder where it starts a server; a missing configuration never gets there.
  pub main-Fits : (c : Config) (args : List Bytes) (d : Done) → main env c args ≡ ok d → Fits d
  unfolding main run_validate run_config
  main-Fits c args d h =
      let (c1, placed, h1) = >>=-eq-ok (positional c args) _ h in
      elim (if-eq-ok (is_set c1.validate) _ _ h1) [
        | inl (e, h2) ↦
            let (u, valid, h3) =
              >>=-eq-ok
                (wrapped "invalid key"
                  (validate_static_key_for_protocol env c1.validate c1.protocol))
                _ h2 in
            let same : key_is_valid ≡ d = cc h3 in rw (sym same) tt
        | inr (e, h2) ↦
            let ((o, c2), parsed, h3) = >>=-eq-ok (parse_config env c1) _ h2 in
            start-Fits o c2 d (parse_config_role c1 c2 o parsed) h3
      ]
