-- ===== src/Noisecat/Names/Missing.antt =====
-- The error of parseProtocolName in pkg/noisecat/utils.go for a name of the right form.
use Prim.Native.String.{String}
use noisecat.Base.{
  ℕ, ◌⊎◌, inl, inr, ap, ok, ◌++◌, ◌≡◌, ◌≢◌, ◌∙◌, sym, refl, List, [], ◌∷◌, none, some, Option-cases,
  Bytes, bytes_of, append_assoc, append-nil, err, detailed,
}
use noisecat.Noisecat.Names.{
  Groups, lookup, lookups, Protocol, missing, missing_as, missing_in, join_loop, join_list,
  match_name, parse_protocol_name, pattern_str_byte, dh_str_byte, cipher_str_byte, hash_str_byte,
  Table,
}

-- The items, each behind ", ".
abbrev pub each_after_comma : List Bytes → Bytes
each_after_comma [] = []
each_after_comma (s ∷ items) = bytes_of ", " ++ (s ++ each_after_comma items)

join_loop_lem :
    (out : Bytes) (items : List Bytes) → join_loop out items ≡ out ++ each_after_comma items
unfolding join_loop
join_loop_lem out [] = sym (append-nil out)
join_loop_lem out (s ∷ items) =
    join_loop_lem (out ++ (bytes_of ", " ++ s)) items ∙ simp append_assoc refl

-- joinList puts ", " between its items.
pub join_list_lem :
    (s : Bytes) (items : List Bytes) → join_list (s ∷ items) ≡ s ++ each_after_comma items
unfolding join_list
join_list_lem s items = join_loop_lem s items

missing_in-cases :
    (t : Table) (what : String) (name : Bytes)
    → ((v : ℕ) × (lookup name t ≡ some v) × (missing_in t what name ≡ []))
      ⊎ ((x : Bytes) × (lookup name t ≡ none) × (missing_in t what name ≡ x ∷ []))
missing_in-cases t what name = elim (Option-cases (lookup name t)) [
  | inl e ↦ inr (bytes_of what ++ name, e, ap (λ o. missing_as o what name) e)
  | inr (v, e) ↦ inl (v, e, ap (λ o. missing_as o what name) e)
]

-- lookups finds a protocol where no name is missing, and none where one is.
lookups-missing :
    (g : Groups)
    → ((p : Protocol) × (lookups g ≡ some p) × (missing g ≡ []))
      ⊎ ((lookups g ≡ none) × (missing g ≢ []))
unfolding lookups missing lookup
lookups-missing g = elim (missing_in-cases pattern_str_byte "handshake pattern " g.pattern_name) [
  | inr (x, e, m) ↦ inr (simp e refl, λ h. cc (simp m at h))
  | inl (hs, e, m) ↦ elim (missing_in-cases dh_str_byte "DH function " g.functions.0) [
    | inr (x, e1, m1) ↦ inr (simp (e, e1) refl, λ h. cc (simp (m, m1) at h))
    | inl (dh, e1, m1) ↦
        elim (missing_in-cases cipher_str_byte "cipher function " g.functions.1.0) [
          | inr (x, e2, m2) ↦ inr (simp (e, e1, e2) refl, λ h. cc (simp (m, m1, m2) at h))
          | inl (ci, e2, m2) ↦
              elim (missing_in-cases hash_str_byte "hash function " g.functions.1.1) [
                | inr (x, e3, m3) ↦
                    inr (simp (e, e1, e2, e3) refl, λ h. cc (simp (m, m1, m2, m3) at h))
                | inl (ha, e3, m3) ↦ inl (
                  record {
                    pattern_ = hs;
                    dh_func = dh;
                    cipher_func = ci;
                    hash_func = ha;
                    psk_placement = g.psk;
                  },
                  simp (e, e1, e2, e3) refl,
                  simp (m, m1, m2, m3) refl,
                )
              ]
        ]
  ]
]

-- A name of the right form parses where every part is in its table; otherwise the error lists the
-- parts that are not.
pub parse_protocol_name_lem :
    (s : Bytes) (g : Groups)
    → match_name s ≡ some g
    → ((p : Protocol) × (parse_protocol_name s ≡ ok p) × (missing g ≡ []))
      ⊎ ((parse_protocol_name s ≡ err (detailed "unsupported " (join_list (missing g))))
          × (missing g ≢ []))
unfolding parse_protocol_name
parse_protocol_name_lem s g matched = elim (lookups-missing g) [
  | inl (p, found, m) ↦ inl (p, simp (matched, found) refl, m)
  | inr (absent, m) ↦ inr (simp (matched, absent) refl, m)
]
