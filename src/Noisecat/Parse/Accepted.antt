-- ===== src/Noisecat/Parse/Accepted.antt =====
-- The flags that ParseConfig accepts, in words: what its checks come to.
use noisecat.Base.{
  ℕ, ◌≡◌, ◌≢◌, ◌⊎◌, ◌↔◌, refl, true, false, not, ◌&&◌, ◌||◌, [], Bytes, bytes_of, is_blank, pos,
  is_negative, ok,
}
use noisecat.Results.{◌>>=◌, ◌>>◌, require, require-eq-ok, >>=-eq-ok}
use noisecat.Noisecat.Config.{Config, is_port}
use noisecat.Noisecat.Keys.{Env}
use noisecat.Noisecat.Noise.{is_raw_name}
use noisecat.Noisecat.Parse.{is_set, check_proxy, check_flags}
use noisecat.Noisecat.Parse.Flags.{
  Negotiates, IsPort, is_port_iff, daemon_iff, family_iff, timeout_iff, udp_iff, proxy_iff,
  negotiation_iff,
}

pub record Accepted (env : Env) (c : Config) : Type 0 where
  pub daemon_flags :
      (c.daemon ≡ false) ⊎ ((c.listen ≡ true) × ((c.proxy ≢ []) ⊎ (c.execute_cmd ≢ [])))
  pub proxy_flags :
      (c.proxy ≡ [])
      ⊎ ((c.listen ≡ true)
          × (c.execute_cmd ≡ [])
          × ((hp : Bytes × Bytes) × (env.split_host_port c.proxy ≡ ok hp)))
  pub port_flag : (c.src_port ≡ []) ⊎ IsPort c.src_port
  pub family_flags : (c.ipv4_only ≡ false) ⊎ (c.ipv6_only ≡ false)
  pub timeout_flag : (n : ℕ) × (c.timeout_seconds ≡ pos n)
  pub udp_flag : (c.udp ≡ false) ⊎ (c.transport ≡ []) ⊎ (c.transport ≡ bytes_of "raw")
  pub negotiation_flag : Negotiates c

module _ (env : Env) where
  accepted : (c : Config) → check_flags env c ≡ ok tt → Accepted env c
  unfolding check_flags
  accepted c h =
      let (d1, h1) = require-eq-ok (not c.daemon || c.listen) _ _ h in
      let (d2, h2) =
        require-eq-ok (not c.daemon || is_set c.proxy || is_set c.execute_cmd) _ _ h1 in
      let (p1, h3) = require-eq-ok (is_blank c.proxy || c.listen) _ _ h2 in
      let (p2, h4) = require-eq-ok (is_blank c.proxy || is_blank c.execute_cmd) _ _ h3 in
      let (p3, found, h5) = >>=-eq-ok (check_proxy env c.proxy) _ h4 in
      let (port, h6) = require-eq-ok (is_blank c.src_port || is_port c.src_port) _ _ h5 in
      let (family, h7) = require-eq-ok (not (c.ipv4_only && c.ipv6_only)) _ _ h6 in
      let (timeout, h8) = require-eq-ok (not (is_negative c.timeout_seconds)) _ _ h7 in
      let (udp, h9) = require-eq-ok (not c.udp || is_raw_name c.transport) _ _ h8 in
      record {
        daemon_flags = (daemon_iff c.daemon c.listen c.proxy c.execute_cmd).0 (d1, d2);
        proxy_flags = (proxy_iff env c.listen c.proxy c.execute_cmd).0 (p1, p2, found);
        port_flag = (is_port_iff c.src_port).0 port;
        family_flags = (family_iff c.ipv4_only c.ipv6_only).0 family;
        timeout_flag = (timeout_iff c.timeout_seconds).0 timeout;
        udp_flag = (udp_iff c.udp c.transport).0 udp;
        negotiation_flag = (negotiation_iff c).0 h9;
      }

  accepts : (c : Config) → Accepted env c → check_flags env c ≡ ok tt
  unfolding check_flags
  accepts c a =
      let (d1, d2) = (daemon_iff c.daemon c.listen c.proxy c.execute_cmd).1 a.daemon_flags in
      let (p1, p2, p3) = (proxy_iff env c.listen c.proxy c.execute_cmd).1 a.proxy_flags in
      let port = (is_port_iff c.src_port).1 a.port_flag in
      let family = (family_iff c.ipv4_only c.ipv6_only).1 a.family_flags in
      let timeout = (timeout_iff c.timeout_seconds).1 a.timeout_flag in
      let udp = (udp_iff c.udp c.transport).1 a.udp_flag in
      let negotiates = (negotiation_iff c).1 a.negotiation_flag in
      simp (d1, d2, p1, p2, p3, port, family, timeout, udp, negotiates, require, ◌>>◌, ◌>>=◌) refl

-- ParseConfig's checks pass exactly on the accepted flags: -k with -l and a target; -proxy only with
-- -l, without -e and as host:port; -p from 0 to 65535; not both -4 and -6; -w not negative; -u only
-- with the raw transport; and the flags of the negotiation only with noisesocket and each in its
-- role.
pub check_flags-Accepted : (env : Env) (c : Config) → (check_flags env c ≡ ok tt) ↔ Accepted env c
check_flags-Accepted env c = (accepted env c, accepts env c)
