-- ===== src/Node/Transfer/Termination.antt =====
-- The loop over the blob of flushFile in internal/node/node.go ends by its own condition.
use chirp.Prelude.{
  ℕ, zero, suc, ◌+◌, ◌-◌, ◌≤◌, ◌≡◌, refl, ap, ◌∙◌, [], ◌∷◌, Text, ltb, length, take, drop, arith,
  Bool-cases, inl, inr, if◌then◌else◌,
}
use chirp.Proto.Envelope.{chunk_size}
use chirp.Node.Transfer.{chunks}

-- One more turn is never taken where the fuel covers what is left.
chunks-suc :
    (n : ℕ) (src : Text) (off : ℕ)
    → length src ≤ n + off
    → chunks (suc n) src off ≡ chunks n src off
unfolding chunks
chunks-suc zero src off h = ground arith
chunks-suc (suc n) src off h = elim (Bool-cases (ltb off (length src))) [
  | inr done ↦ rw done refl
  | inl more ↦
      let end = if ltb (length src) (off + chunk_size) then length src else off + chunk_size in
      ap
        (λ rest. if ltb off (length src) then (off, take (end - off) (drop off src)) ∷ rest else [])
        (chunks-suc n src end (ground arith))
]

-- The chunk loop ends within as many turns as the file has bytes: more fuel than that gives the
-- same chunks.
pub chunks-fuel :
    (k : ℕ) (src : Text) (off : ℕ) → chunks (k + length src) src off ≡ chunks (length src) src off
chunks-fuel zero src off = ap (λ n. chunks n src off) (omega arith)
chunks-fuel (suc k) src off =
    ap (λ n. chunks n src off) (omega arith)
    ∙ chunks-suc (k + length src) src off (omega arith)
    ∙ chunks-fuel k src off
