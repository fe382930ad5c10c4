-- ===== src/Noisecat/Parse/Flags.antt =====
-- The checks of ParseConfig one by one, as statements on the flags.
use noisecat.Base.{
  ℕ, ◌≤◌, ◌≡◌, ◌≢◌, ◌⊎◌, ◌↔◌, inl, inr, ◌∙◌, ap, refl, Bool, true, false, not, ◌&&◌, ◌||◌, Option,
  none, some, [], ◌∷◌, Bytes, String, bytes_of, says, is_blank, is_blank-true, equal_iff,
  equal_refl, Bool-cases, le→leb, leb→le, ℤ, pos, negsuc, is_negative, wrapped, ok,
}
use noisecat.Results.{◌>>=◌, ◌>>◌, require, require-eq-ok, >>=-eq-ok, wrapped-eq-ok, require-true}
use noisecat.Noisecat.Config.{
  Config, is_port, in_ports, atoi, is_policy, negotiation_flags, validate_negotiation,
}
use noisecat.Noisecat.Keys.{Env}
use noisecat.Noisecat.Noise.{is_raw_name}
use noisecat.Noisecat.Parse.{is_set, check_proxy}

abbrev pub IsPolicy : Bytes → Type 0
IsPolicy s = (s ≡ []) ⊎ (s ≡ bytes_of "reject") ⊎ (s ≡ bytes_of "retry") ⊎ (s ≡ bytes_of "switch")

abbrev pub NoNegotiation : Config → Type 0
NoNegotiation c = (c.ns_fallback ≡ []) × (c.ns_support ≡ []) × (c.ns_policy ≡ [])

abbrev pub RoleFlags : Config → Type 0
RoleFlags c =
    ((c.listen ≡ true) × (c.ns_fallback ≡ []) × IsPolicy c.ns_policy)
    ⊎ ((c.listen ≡ false) × (c.ns_support ≡ []) × (c.ns_policy ≡ []))

abbrev pub Negotiates : Config → Type 0
Negotiates c = NoNegotiation c ⊎ ((c.transport ≡ bytes_of "noisesocket") × RoleFlags c)

abbrev pub IsPort : Bytes → Type 0
IsPort s = (n : ℕ) × (atoi s ≡ some (pos n)) × (n ≤ 65535)

-- Boolean tests as statements.
pub or_iff : (a b : Bool) → ((a || b) ≡ true) ↔ ((a ≡ true) ⊎ (b ≡ true))
or_iff true b = (λ h. inl refl, λ h. refl)
or_iff false b = (λ h. inr h, λ h. elim h [ inl e ↦ cc | inr e ↦ e ])

pub blank_iff : (s : Bytes) → (is_blank s ≡ true) ↔ (s ≡ [])
blank_iff s = (is_blank-true s, λ e. ap is_blank e)

pub says_iff : (s : Bytes) (t : String) → (says s t ≡ true) ↔ (s ≡ bytes_of t)
says_iff s t = (equal_iff s (bytes_of t), λ e. ap (λ x. says x t) e ∙ equal_refl (bytes_of t))

pub in_ports_iff :
    (o : Option ℤ) → (in_ports o ≡ true) ↔ ((n : ℕ) × (o ≡ some (pos n)) × (n ≤ 65535))
in_ports_iff none = (λ h. absurd (cc h), λ (n, found, fits). absurd (cc found))
in_ports_iff (some (pos n)) =
    (λ h. (n, refl, leb→le n 65535 h), λ (m, found, fits). le→leb n 65535 (rw (same m found) fits))
  where
    same : (m : ℕ) → some (pos n) ≡ some (pos m) → n ≡ m
    same m found = cc
in_ports_iff (some (negsuc n)) = (λ h. absurd (cc h), λ (m, found, fits). absurd (cc found))

pub is_port_iff : (s : Bytes) → ((is_blank s || is_port s) ≡ true) ↔ ((s ≡ []) ⊎ IsPort s)
unfolding is_port
is_port_iff [] = (λ h. inl refl, λ h. refl)
is_port_iff (c ∷ s) = (
  λ h. inr ((in_ports_iff (atoi (c ∷ s))).0 h),
  λ h. elim h [ inl e ↦ absurd (cc e) | inr p ↦ (in_ports_iff (atoi (c ∷ s))).1 p ],
)

pub daemon_iff :
    (d l : Bool) (p e : Bytes)
    → (((not d || l) ≡ true) × ((not d || is_set p || is_set e) ≡ true))
      ↔ ((d ≡ false) ⊎ ((l ≡ true) × ((p ≢ []) ⊎ (e ≢ []))))
daemon_iff false l p e = (λ h. inl refl, λ h. (refl, refl))
daemon_iff true false p e =
    (λ (h, k). absurd (cc h), λ h. elim h [ inl x ↦ absurd (cc x) | inr (x, y) ↦ absurd (cc x) ])
daemon_iff true true (c ∷ p) e = (λ h. inr (refl, inl (λ x. cc x)), λ h. (refl, refl))
daemon_iff true true [] (c ∷ e) = (λ h. inr (refl, inr (λ x. cc x)), λ h. (refl, refl))
daemon_iff true true [] [] = (
  λ (h, k). absurd (cc k),
  λ h. elim h [
    | inl x ↦ absurd (cc x)
    | inr (x, inl y) ↦ absurd (y refl)
    | inr (x, inr y) ↦ absurd (y refl)
  ],
)

pub family_iff : (a b : Bool) → (not (a && b) ≡ true) ↔ ((a ≡ false) ⊎ (b ≡ false))
family_iff false b = (λ h. inl refl, λ h. refl)
family_iff true false = (λ h. inr refl, λ h. refl)
family_iff true true =
    (λ h. absurd (cc h), λ h. elim h [ inl x ↦ absurd (cc x) | inr x ↦ absurd (cc x) ])

pub timeout_iff : (t : ℤ) → (not (is_negative t) ≡ true) ↔ ((n : ℕ) × (t ≡ pos n))
timeout_iff (pos n) = (λ h. (n, refl), λ h. refl)
timeout_iff (negsuc n) = (λ h. absurd (cc h), λ (m, e). absurd (cc e))

pub raw_iff : (s : Bytes) → (is_raw_name s ≡ true) ↔ ((s ≡ []) ⊎ (s ≡ bytes_of "raw"))
raw_iff [] = (λ h. inl refl, λ h. refl)
raw_iff (c ∷ s) = (
  λ h. inr ((says_iff (c ∷ s) "raw").0 h),
  λ h. elim h [ inl e ↦ absurd (cc e) | inr e ↦ (says_iff (c ∷ s) "raw").1 e ],
)

pub udp_iff :
    (u : Bool) (s : Bytes)
    → ((not u || is_raw_name s) ≡ true) ↔ ((u ≡ false) ⊎ (s ≡ []) ⊎ (s ≡ bytes_of "raw"))
udp_iff false s = (λ h. inl refl, λ h. refl)
udp_iff true s =
    (λ h. inr ((raw_iff s).0 h), λ h. elim h [ inl e ↦ absurd (cc e) | inr e ↦ (raw_iff s).1 e ])

module _ (env : Env) where
  pub proxy_iff :
      (l : Bool) (p e : Bytes)
      → (((is_blank p || l) ≡ true)
          × ((is_blank p || is_blank e) ≡ true)
          × (check_proxy env p ≡ ok tt))
        ↔ ((p ≡ [])
            ⊎ ((l ≡ true) × (e ≡ []) × ((hp : Bytes × Bytes) × (env.split_host_port p ≡ ok hp))))
  unfolding check_proxy
  proxy_iff l [] e = (λ h. inl refl, λ h. (refl, refl, refl))
  proxy_iff l (c ∷ p) e = (
    λ (is_l, is_e, split).
        let (hp, found, done) =
          >>=-eq-ok (wrapped "-proxy must be host:port" (env.split_host_port (c ∷ p))) _ split in
        inr (is_l, is_blank-true e is_e, (hp, wrapped-eq-ok _ (env.split_host_port (c ∷ p)) found)),
    λ h. elim h [
      | inl x ↦ absurd (cc x)
      | inr (is_l, is_e, (hp, found)) ↦ (is_l, ap is_blank is_e, simp (found, ◌>>=◌, wrapped) refl)
    ],
  )

pub is_policy-IsPolicy : (s : Bytes) → (is_policy s ≡ true) ↔ IsPolicy s
unfolding is_policy
is_policy-IsPolicy [] = (λ h. inl refl, λ h. refl)
is_policy-IsPolicy (c ∷ s) = (
  λ h. elim ((or_iff (says (c ∷ s) "reject" || says (c ∷ s) "retry") (says (c ∷ s) "switch")).0 h) [
    | inr e ↦ inr (inr (inr ((says_iff (c ∷ s) "switch").0 e)))
    | inl e ↦ elim ((or_iff (says (c ∷ s) "reject") (says (c ∷ s) "retry")).0 e) [
      | inl e' ↦ inr (inl ((says_iff (c ∷ s) "reject").0 e'))
      | inr e' ↦ inr (inr (inl ((says_iff (c ∷ s) "retry").0 e')))
    ]
  ],
  λ h. elim h [
    | inl e ↦ absurd (cc e)
    | inr (inl e) ↦ ap is_policy e
    | inr (inr (inl e)) ↦ ap is_policy e
    | inr (inr (inr e)) ↦ ap is_policy e
  ],
)

pub role_iff :
    (l : Bool) (f s p : Bytes)
    → (((not l || is_blank f) ≡ true)
        × ((l || is_blank s) ≡ true)
        × ((l || is_blank p) ≡ true)
        × (is_policy p ≡ true))
      ↔ (((l ≡ true) × (f ≡ []) × IsPolicy p) ⊎ ((l ≡ false) × (s ≡ []) × (p ≡ [])))
role_iff true f s p = (
  λ (hf, hs, hp, policy). inl (refl, is_blank-true f hf, (is_policy-IsPolicy p).0 policy),
  λ h. elim h [
    | inl (x, e, policy) ↦ (ap is_blank e, refl, refl, (is_policy-IsPolicy p).1 policy)
    | inr (x, e, policy) ↦ absurd (cc x)
  ],
)
role_iff false f s p = (
  λ (hf, hs, hp, policy). inr (refl, is_blank-true s hs, is_blank-true p hp),
  λ h. elim h [
    | inl (x, e, policy) ↦ absurd (cc x)
    | inr (x, e, e') ↦ (refl, ap is_blank e, ap is_blank e', (is_policy-IsPolicy p).1 (inl e'))
  ],
)

pub flags_iff :
    (c : Config)
    → (negotiation_flags c ≡ ok tt) ↔ ((c.transport ≡ bytes_of "noisesocket") × RoleFlags c)
unfolding negotiation_flags
flags_iff c = (
  λ h.
      let (a, h1) = require-eq-ok (says c.transport "noisesocket") _ _ h in
      let (b, h2) = require-eq-ok (not c.listen || is_blank c.ns_fallback) _ _ h1 in
      let (d, h3) = require-eq-ok (c.listen || is_blank c.ns_support) _ _ h2 in
      let (e, h4) = require-eq-ok (c.listen || is_blank c.ns_policy) _ _ h3 in
      (
        (says_iff c.transport "noisesocket").0 a,
        (role_iff c.listen c.ns_fallback c.ns_support c.ns_policy).0
            (b, d, e, require-true (is_policy c.ns_policy) _ h4),
      ),
  λ (t, role).
      let (b, d, e, p) = (role_iff c.listen c.ns_fallback c.ns_support c.ns_policy).1 role in
      simp ((says_iff c.transport "noisesocket").1 t, b, d, e, p, require, ◌>>◌, ◌>>=◌) refl,
)

pub none_iff :
    (f s p : Bytes)
    → ((is_blank f && is_blank s && is_blank p) ≡ true) ↔ ((f ≡ []) × (s ≡ []) × (p ≡ []))
none_iff [] [] [] = (λ h. (refl, refl, refl), λ h. refl)
none_iff [] [] (c ∷ p) = (λ h. absurd (cc h), λ (x, y, z). absurd (cc z))
none_iff [] (c ∷ s) p = (λ h. absurd (cc h), λ (x, y, z). absurd (cc y))
none_iff (c ∷ f) s p = (λ h. absurd (cc h), λ (x, y, z). absurd (cc x))

pub negotiation_iff : (c : Config) → (validate_negotiation c ≡ ok tt) ↔ Negotiates c
unfolding validate_negotiation
negotiation_iff c =
    elim (Bool-cases (is_blank c.ns_fallback && is_blank c.ns_support && is_blank c.ns_policy)) [
      | inl e ↦ (λ h. inl ((none_iff c.ns_fallback c.ns_support c.ns_policy).0 e), λ h. simp e refl)
      | inr e ↦ (
        λ h. inr ((flags_iff c).0 (simp e at h)),
        λ h. elim h [
          | inl n ↦ absurd (cc (e, (none_iff c.ns_fallback c.ns_support c.ns_policy).1 n))
          | inr n ↦ simp e ((flags_iff c).1 n)
        ],
      )
    ]
