-- ===== src/Web/Tests.antt =====
-- Runs of the web components.
use lovely_rs.Base.{◌<◌, All, ◌≡◌, ◌↔◌, some, [], ◌∷◌, true, Text, codes, arith, length, all, bytes}
use lovely_rs.Web.Csrf.{generate_token, verify_token}
use lovely_rs.Web.Errors.{ok}
use lovely_rs.Web.Csrf.Laws.{is_hex, generate_token-is_hex, verify_token_iff}

token_example :
    (token : Text) × (generate_token (0xAB ∷ 0x07 ∷ []) ≡ some token)
    × (length token ≡ 4)
    × (all is_hex token ≡ true)
token_example = generate_token-is_hex (0xAB ∷ 0x07 ∷ []) (omega arith, (omega arith, tt))

same_scalars : (s : Text) → some (codes "ab") ≡ some s → All (λ c. c < 0x110000) s
same_scalars s e = let same : codes "ab" ≡ s = cc in rw (← same) (omega arith, (omega arith, tt))

verify_example :
    (verify_token (codes "ab") (some (codes "ab")) ≡ ok tt)
    ↔ ((s : Text) × (some (codes "ab") ≡ some s) × (bytes (codes "ab") ≡ bytes s))
verify_example =
    verify_token_iff (codes "ab") (some (codes "ab")) (omega arith, (omega arith, tt))
      (λ s e. same_scalars s e)
