-- ===== src/Node/Events/Log.antt =====
-- What logf of internal/node/events.go keeps.
use chirp.Prelude.{
  ℕ, zero, suc, ◌+◌, ◌-◌, ◌≤◌, ◌≡◌, refl, List, [], ◌∷◌, ◌++◌, append_assoc, append-nil, length,
  length-append, length-drop, drop, arith,
}
use chirp.Node.Events.{LogEntry, logf, log_each}

module _ {ℓ} {A : Type ℓ} where
  drop-nil : (n : ℕ) → drop {A = A} n [] ≡ []
  drop-nil zero = refl
  drop-nil (suc n) = refl

  drop-drop : (m n : ℕ) (xs : List A) → drop m (drop n xs) ≡ drop (n + m) xs
  drop-drop m zero xs = ground arith
  drop-drop m (suc n) [] = rw (drop-nil m, drop-nil (suc n + m)) refl
  drop-drop m (suc n) (x ∷ xs) =
      let e : suc n + m ≡ suc (n + m) = omega arith in rw e (drop-drop m n xs)

  drop-before : (n : ℕ) (xs ys : List A) → n ≤ length xs → drop n xs ++ ys ≡ drop n (xs ++ ys)
  drop-before zero xs ys h = refl
  drop-before (suc n) [] ys h = absurd (ground arith)
  drop-before (suc n) (x ∷ xs) ys h = drop-before n xs ys (ground arith)

logf-drop :
    (e : LogEntry) (log : List LogEntry)
    → logf e log ≡ drop (length (log ++ (e ∷ [])) - 200) (log ++ (e ∷ []))
unfolding logf
logf-drop e log = ground arith

log_each-drop :
    (l log : List LogEntry)
    → length log ≤ 200
    → log_each l log ≡ drop (length (log ++ l) - 200) (log ++ l)
unfolding log_each
log_each-drop [] log h = ground (arith, append-nil log)
log_each-drop (e ∷ l) log h =
    let all = log ++ (e ∷ []) in
    let k = length all - 200 in
    rw (logf-drop e log) (
      ground (
        arith,
        log_each-drop l (drop k all) (ground (arith, length-drop k all)),
        drop-before k all l (omega arith),
        drop-drop (length (drop k all ++ l) - 200) k (all ++ l),
        append_assoc log (e ∷ []) l,
        length-append log (e ∷ []),
        length-append all l,
        length-append (drop k all) l,
        length-drop k all,
      ))

-- The log holds the newest 200 lines, or all where there are fewer.
log_each-newest : (l : List LogEntry) → log_each l [] ≡ drop (length l - 200) l
log_each-newest l = log_each-drop l [] (ground arith)
