-- ===== src/Api/Guards.antt =====
-- What secure of internal/api/api.go lets through.
use chirp.Prelude.{
  ℕ, ◌≡◌, ◌↔◌, ◌⊎◌, text_eq_iff, Option-cases, ◌∷◌, true, false, Bool, [], Text, codes, Option,
  some, Result, ok, err, arith, inl, inr,
}
use chirp.Proto.Envelope.{is_empty}
use chirp.Api.{Request, Forbidden, host_name, is_local, is_safe, same_origin, secure}

-- Whether a request is served.
abbrev pub served : Result Forbidden (Option ℕ) → Bool
served (ok limit) = true
served (err e) = false

-- A request that a page of another site, or a name that points at this machine, cannot make.
abbrev pub OwnRequest : (Text → Option Text) → Request → Type 0
OwnRequest url_host r =
    (is_local (host_name r.host) ≡ true)
    × ((is_safe r.method ≡ true)
        ⊎ ((r.x_chirp ≡ codes "1") × ((r.origin ≡ []) ⊎ (url_host r.origin ≡ some r.host))))

is_empty_iff : (s : Text) → (is_empty s ≡ true) ↔ (s ≡ [])
is_empty_iff [] = ground arith
is_empty_iff (b ∷ s) = ground arith

same_origin_iff :
    (url_host : Text → Option Text) (r : Request)
    → (same_origin url_host r ≡ true) ↔ (url_host r.origin ≡ some r.host)
same_origin_iff url_host r = elim (Option-cases (url_host r.origin)) [
  | inl e ↦ ground arith
  | inr (h, e) ↦ ground (arith, text_eq_iff h r.host)
]

-- A request is served exactly if its host is local and it either has a safe method, or carries the
-- header X-Chirp: 1 and has no origin or one whose host is the request's.
pub secure_iff :
    (url_host : Text → Option Text) (r : Request)
    → (served (secure url_host r) ≡ true) ↔ OwnRequest url_host r
unfolding secure
secure_iff url_host r =
    ground
      (arith, text_eq_iff r.x_chirp (codes "1"), is_empty_iff r.origin, same_origin_iff url_host r)
