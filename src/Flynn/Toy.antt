-- ===== src/Flynn/Toy.antt =====
-- A small library that meets the assumptions on github.com/flynn/noise, for the runs at concrete
-- inputs: a cipher state counts up to 1000 messages, a handshake has two.
use noisecat.Base.{
  ℕ, suc, ◌+◌, ◌-◌, ◌%◌, ◌<◌, ◌≤◌, ◌++◌, ◌≡◌, ◌≢◌, refl, sym, ap, arith, true, false, Option, none,
  some, [], ◌∷◌, Bytes, replicate, drop, get_or, ltb, lt→ltb, ◌==◌, ==_refl, if◌then◌else◌, text,
  ok, ret, raise, Action, Outcome,
}
use noisecat.Flynn.{NoiseLibrary, IsCipher, IsHandshake}

abbrev tag : Bytes → ℕ → Bytes
tag p n = replicate 16 (n % 256) ++ p

abbrev toy_encrypt : Bytes → Action ℕ Bytes
toy_encrypt p n = if ltb n 1000 then ret (tag p n) (suc n) else raise (text "maximum nonce") n

abbrev toy_decrypt : Bytes → Action ℕ Bytes
toy_decrypt b n =
    if get_or b 0 0 == n % 256 then ret (drop 16 b) (suc n) else raise (text "authentication") n

abbrev split_states : ℕ → Option (ℕ × ℕ)
split_states h = if h == 1 then some (0, 500) else none

abbrev pub toy : NoiseLibrary
toy = record {
  Config = ℕ;
  HandshakeState = ℕ;
  CipherState = ℕ;
  messages = λ cfg. cfg;
  peer_static = λ cfg. none;
  prologue = λ cfg. [];
  with_prologue = λ p cfg. cfg;
  new_handshake_state = λ cfg. ok 0;
  write_message = λ h. ret (h ∷ [], split_states h) (suc h);
  read_message = λ m h. ret (split_states h) (suc h);
  channel_binding = λ h. replicate 32 h;
  encrypt = toy_encrypt;
  decrypt = toy_decrypt;
  is_max_nonce = λ e. false;
}

toy_encrypt_ok : (p : Bytes) (n : ℕ) → 0 < 1000 - n → toy_encrypt p n ≡ ret (tag p n) (suc n)
toy_encrypt_ok p n h = let low : ltb n 1000 ≡ true = lt→ltb n 1000 (omega arith) in rw low refl

toy_decrypt_ok : (p : Bytes) (n : ℕ) → toy_decrypt (tag p n) n ≡ ret p (suc n)
toy_decrypt_ok p n = rw (==_refl (n % 256)) refl

pub toy-IsCipher : IsCipher toy
toy-IsCipher = record {
  remaining = λ n. 1000 - n;
  sealed = tag;
  stepped = suc;
  encrypt_ok = λ p n left short. toy_encrypt_ok p n left;
  decrypt_ok = λ p n left short. toy_decrypt_ok p n;
  length-sealed = λ p n. omega arith;
  remaining-stepped = λ n left. omega arith;
}

toy_read_ok :
    (a b : ℕ)
    → a ≡ b
    → ◌≡◌ {A = Outcome ℕ (Option (ℕ × ℕ))}
        (ret (split_states b) (suc b))
        (ret (split_states a) (suc b))
toy_read_ok a b same = ap (λ n. ret (split_states n) (suc b)) (sym same)

toy_not_yet : (k a : ℕ) → suc (suc k) + a ≡ 2 → split_states a ≡ none
toy_not_yet k a e = let first : a ≡ 0 = omega arith in rw first refl

toy_split : (a : ℕ) → 1 + a ≡ 2 → (p : ℕ × ℕ) × (split_states a ≡ some p)
toy_split a e = let last : a ≡ 1 = omega arith in ((0, 500), rw last refl)

pub toy-IsHandshake : IsHandshake toy
toy-IsHandshake = record {
  Talk = λ k a b. (a ≡ b) × (k + a ≡ 2);
  message = λ h. h ∷ [];
  wrote = suc;
  took = suc;
  states = split_states;
  write_ok = λ k a b talk. refl;
  read_ok = λ k a b talk. toy_read_ok a b talk.0;
  length-message = λ k a b talk. omega arith;
  not_yet = λ k a b talk. toy_not_yet k a talk.1;
  split = λ a b talk. toy_split a talk.1;
  go_on = λ k a b talk. (ap suc (sym talk.0), omega (arith, talk.0, talk.1));
}

pub toy_left : 10 ≤ toy-IsCipher.remaining 5
unfolding toy-IsCipher
toy_left = omega arith

pub toy_talk : toy-IsHandshake.Talk 2 0 0
unfolding toy-IsHandshake
toy_talk = (refl, refl)

pub toy_some_bytes : (h : ℕ) → toy-IsHandshake.message h ≢ []
unfolding toy-IsHandshake
toy_some_bytes h = λ e. cc e
