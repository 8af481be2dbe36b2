-- ===== src/Web/Pages/Head/Rounds.antt =====
-- The loop of the sanitizer ends.
use lovely_rs.Base.{
  ℕ, zero, suc, ◌<◌, ◌≤◌, ◌≡◌, refl, ap, Option, none, some, List, [], ◌∷◌, map, length, Text,
  codes, starts_with, to_lower, Bool-cases, inl, inr, arith,
}
use lovely_rs.Web.Pages.Head.{
  drop_text, behind, skip_quoted, skip_bare, skip_value, skip_or_stop, skip_or_push, after_step,
  HeadStep, panic, stop, skip, push, is_continuation, head_step, under, head_loop,
}

drop_text-length : (pattern : Text) (s : List ℕ) → length (drop_text pattern s) ≤ length s
drop_text-length [] s = omega arith
drop_text-length (c ∷ pattern) [] = omega arith
drop_text-length (c ∷ pattern) (b ∷ s) = omega (arith, drop_text-length pattern s)

-- A pattern that is not empty lies before what stands behind it.
behind-length :
    (c : ℕ) (pattern : Text) (s rest : List ℕ)
    → behind (c ∷ pattern) s ≡ some rest
    → length rest < length s
unfolding behind
behind-length c pattern [] rest e = cc
behind-length c pattern (b ∷ s) rest e =
    elim (Bool-cases (starts_with (map to_lower (b ∷ s)) (c ∷ pattern))) [
      | inl hit ↦ ground (arith, e, hit, drop_text-length pattern s)
      | inr miss ↦ ground (arith, e, miss, behind-length c pattern s rest)
    ]

skip_quoted-length : (q : ℕ) (s : List ℕ) → length (skip_quoted q s) ≤ length s
unfolding skip_quoted
skip_quoted-length q [] = omega arith
skip_quoted-length q (b ∷ s) = ground (arith, skip_quoted-length q s)

skip_bare-length : (s : List ℕ) → length (skip_bare s) ≤ length s
unfolding skip_bare
skip_bare-length [] = omega arith
skip_bare-length (b ∷ s) = ground (arith, skip_bare-length s)

skip_value-length : (s : List ℕ) → length (skip_value s) ≤ length s
unfolding skip_value
skip_value-length [] = omega arith
skip_value-length (b ∷ s) = ground (arith, skip_quoted-length b s, skip_bare-length (b ∷ s))

abbrev IsShorter : ℕ → HeadStep → Type 0
IsShorter n panic = Unit {0}
IsShorter n stop = Unit {0}
IsShorter n (skip rest) = length rest ≤ n
IsShorter n (push c rest) = length rest ≤ n

skip_or_stop-IsShorter :
    (n : ℕ) (o : Option (List ℕ))
    → ((rest : List ℕ) → o ≡ some rest → length rest ≤ n)
    → IsShorter n (skip_or_stop o)
skip_or_stop-IsShorter n none h = tt
skip_or_stop-IsShorter n (some rest) h = h rest refl

skip_or_push-IsShorter :
    (b : ℕ) (s : List ℕ) (o : Option (List ℕ))
    → ((rest : List ℕ) → o ≡ some rest → length rest < length s)
    → IsShorter (length s) (skip_or_push b s o)
unfolding skip_or_push
skip_or_push-IsShorter b s none h = omega arith
skip_or_push-IsShorter b s (some value) h = omega (arith, h value refl, skip_value-length value)

head_step-IsShorter : (b : ℕ) (s : List ℕ) → IsShorter (length s) (head_step b s)
unfolding head_step
head_step-IsShorter b s = elim (Bool-cases (is_continuation b)) [
  | inl e ↦ rw e tt
  | inr e ↦ rw e (elim (Bool-cases (starts_with (map to_lower (b ∷ s)) (codes "<script"))) [
    | inl f ↦ rw f (
        skip_or_stop-IsShorter (length s) (behind (codes "</script>") (b ∷ s))
          (λ rest g. omega (arith, behind-length b'<' (codes "/script>") (b ∷ s) rest g)))
    | inr f ↦ rw f (elim (Bool-cases (starts_with (map to_lower (b ∷ s)) (codes " on"))) [
      | inl k ↦ rw k (
          skip_or_push-IsShorter b s (behind (codes "=") s)
            (λ rest g. behind-length b'=' [] s rest g))
      | inr k ↦ rw k (omega arith)
    ])
  ])
]

after_step-same :
    (n : ℕ) (step : HeadStep) (f g : List ℕ → Option Text)
    → IsShorter n step
    → ((rest : List ℕ) → length rest ≤ n → f rest ≡ g rest)
    → after_step step f ≡ after_step step g
after_step-same n panic f g short h = refl
after_step-same n stop f g short h = refl
after_step-same n (skip rest) f g short h = h rest short
after_step-same n (push c rest) f g short h = ap (under c) (h rest short)

-- More rounds than bytes make no difference.
pub head_loop-rounds :
    (m n : ℕ) (s : List ℕ) → length s < m → length s < n → head_loop m s ≡ head_loop n s
unfolding head_loop
head_loop-rounds zero n s lm ln = ground (arith, lm)
head_loop-rounds (suc m) zero s lm ln = ground (arith, ln)
head_loop-rounds (suc m) (suc n) [] lm ln = refl
head_loop-rounds (suc m) (suc n) (b ∷ s) lm ln =
    after_step-same (length s) (head_step b s) (head_loop m) (head_loop n) (head_step-IsShorter b s)
      (λ rest h. head_loop-rounds m n rest (omega (arith, lm, h)) (omega (arith, ln, h)))
