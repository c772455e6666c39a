-- ===== src/Store/Messages/MsgKeys.antt =====
-- Keys of messages with different numbers differ.
use chirp.Prelude.{
  ℕ, ◌+◌, ◌*◌, ◌<◌, ◌≡◌, refl, ap, sym, ◌∙◌, [], ◌∷◌, ◌++◌, Text, length, drop, length-append,
  drop-append, arith,
}
use chirp.Store.Bolt.{Bolt}
use chirp.Store.Casing.{Casing}
use chirp.Store.Peers.{peer_key}
use chirp.Store.Messages.{put_uint64, msg_key}

abbrev number : Text → ℕ
number (a ∷ b ∷ c ∷ d ∷ e ∷ f ∷ g ∷ h ∷ []) =
    ((((((a * 256 + b) * 256 + c) * 256 + d) * 256 + e) * 256 + f) * 256 + g) * 256 + h
number _ = 0

number-put_uint64 : (n : ℕ) → n < 18446744073709551616 → number (put_uint64 n) ≡ n
number-put_uint64 n h = ground arith

-- Two lists with tails of one length agree in the tails.
append-cancel : (s t u v : Text) → length u ≡ length v → s ++ u ≡ t ++ v → u ≡ v
append-cancel s t u v h e =
    let same : length s ≡ length t =
      omega (arith, h, ap length e, length-append s u, length-append t v) in
    sym (drop-append s u)
    ∙ ap (drop (length s)) e
    ∙ ap (λ n. drop n (t ++ v)) same
    ∙ drop-append t v

module _ ⦃bolt : Bolt⦄ ⦃casing : Casing⦄ where
  pub msg_key-injective :
      (p q : Text) (m n : ℕ)
      → m < 18446744073709551616
      → n < 18446744073709551616
      → msg_key p m ≡ msg_key q n
      → m ≡ n
  unfolding msg_key
  msg_key-injective p q m n a b e =
      let tails =
        append-cancel (peer_key p) (peer_key q) (0 ∷ put_uint64 m) (0 ∷ put_uint64 n) refl e in
      sym (number-put_uint64 m a) ∙ ap (λ s. number (drop 1 s)) tails ∙ number-put_uint64 n b
