-- ===== src/Web/Pages/Forms/Last.antt =====
-- The hidden input of a form comes behind its children.
use lovely_rs.Base.{
  ◌==◌, ==_iff, eq_opt, eq_opt_iff, ◌≡◌, refl, ap, sym, ◌∙◌, ◌⊎◌, inl, inr, Option, none, some,
  Bool, true, false, not, ◌&&◌, List, [], ◌∷◌, ◌++◌, any, All, Text, Bool-cases, Option-cases, ◌≢◌,
  arith,
}
use mathlib.Core.Path.{subst}
use lovely_rs.Tree.Errors.{Uuid}
use lovely_rs.Tree.Build.Rows.{ElementRow}
use lovely_rs.Tree.Build.Siblings.{order_siblings}
use lovely_rs.Tree.Build.Salvage.{SameRows, HasDistinctIds}
use lovely_rs.Tree.Build.ChainOrder.{IsChainFrom, ids, order_siblings-chain}
use lovely_rs.Web.Pages.Forms.{is_followed, tail_of, csrf_input}

-- The identifier at the end of a chain.
abbrev pub last_id : Option Uuid → List ElementRow → Option Uuid
last_id p [] = p
last_id p (c ∷ chain) = last_id (some c.id) chain

abbrev pub is_child : Uuid → ElementRow → Bool
is_child form r = eq_opt r.parent_id (some form)

-- A row is among others, with its links.
abbrev pub is_among : List ElementRow → ElementRow → Bool
is_among rows c =
    any
      (λ r.
        (r.id == c.id) && eq_opt r.prev_sibling c.prev_sibling && eq_opt r.parent_id c.parent_id)
      rows

-- The rows below a form are those of a chain of siblings, and no row stands behind its end.
pub record IsChildren (rows : List ElementRow) (form : Uuid) (chain : List ElementRow)
    : Type 0 where
  pub linked : IsChainFrom none chain
  pub below : All (λ c. is_child form c ≡ true) chain
  pub among : All (λ c. is_among rows c ≡ true) chain
  pub all_children :
      All (λ r. is_child form r ≡ true → any (λ i. i == r.id) (ids chain) ≡ true) rows
  pub open_end : (z : Uuid) → last_id none chain ≡ some z → is_followed rows z ≡ false

any-weaken :
    (p q : ElementRow → Bool) (rows : List ElementRow)
    → ((r : ElementRow) → p r ≡ true → q r ≡ true)
    → any p rows ≡ true
    → any q rows ≡ true
any-weaken p q [] h e = e
any-weaken p q (r ∷ rows) h e = elim (Bool-cases (p r)) [
  | inl f ↦ let here = h r f in ground (arith, here)
  | inr f ↦
      let there : any p rows ≡ true = ground (arith, e, f) in
      let rest = any-weaken p q rows h there in ground (arith, rest)
]

among-follows :
    (rows : List ElementRow) (c : ElementRow) (i : Uuid)
    → is_among rows c ≡ true
    → c.prev_sibling ≡ some i
    → is_followed rows i ≡ true
among-follows rows c i h e =
    any-weaken _ (λ other. eq_opt other.prev_sibling (some i)) rows
      (λ r p. subst (λ o. eq_opt r.prev_sibling o ≡ true) e (ground (arith, p))) h

-- Each row of a chain but the last is followed.
module _ (rows : List ElementRow) where
  chain_followed :
      (chain : List ElementRow) (p : Option Uuid) (id : Uuid)
      → IsChainFrom p chain
      → All (λ c. is_among rows c ≡ true) chain
      → any (λ i. i == id) (ids chain) ≡ true
      → (is_followed rows id ≡ true) ⊎ (last_id p chain ≡ some id)
  chain_followed [] p id linked among h = ground (arith, h)
  chain_followed (c ∷ []) p id linked among h =
      inr (ap some ((==_iff c.id id).0 (ground (arith, h))))
  chain_followed (c ∷ d ∷ chain) p id (prev, (next, linked)) (_, (here, among)) h =
      elim (Bool-cases (c.id == id)) [
        | inl e ↦ inl (
            subst (λ i. is_followed rows i ≡ true) ((==_iff c.id id).0 e)
              (among-follows rows d c.id here next))
        | inr e ↦
            chain_followed (d ∷ chain) (some c.id) id (next, linked) (here, among)
              (ground (arith, h, e))
      ]

  child_is :
      (form z : Uuid) (c : ElementRow)
      → is_child form c ≡ true
      → c.id ≡ z
      → is_among rows c ≡ true
      → any (λ r. is_child form r && (r.id == z)) rows ≡ true
  child_is form z c below e h =
      any-weaken _ (λ r. is_child form r && (r.id == z)) rows
        (λ r q.
          let same : r.id ≡ c.id = (==_iff r.id c.id).0 (ground (arith, q)) in
          let here : (r.id == z) ≡ true = (==_iff r.id z).1 (same ∙ e) in
          let up : r.parent_id ≡ c.parent_id =
            (eq_opt_iff r.parent_id c.parent_id).0 (ground (arith, q)) in
          let under : is_child form r ≡ true = ap (λ o. eq_opt o (some form)) up ∙ below in
          ground (arith, here, under))
        h

  chain_end :
      (form z : Uuid) (chain : List ElementRow) (p : Option Uuid)
      → All (λ c. is_child form c ≡ true) chain
      → All (λ c. is_among rows c ≡ true) chain
      → last_id p chain ≡ some z
      → (p ≡ some z) ⊎ (any (λ r. is_child form r && (r.id == z)) rows ≡ true)
  chain_end form z [] p below among e = inl e
  chain_end form z (c ∷ chain) p (under, below) (here, among) e =
      elim (chain_end form z chain (some c.id) below among e) [
        | inl f ↦ inr (child_is form z c under (cc) here)
        | inr f ↦ inr f
      ]

  tail_of-last :
      (form z : Uuid) (l : List ElementRow)
      → All (λ r. is_child form r ≡ true → (is_followed rows r.id ≡ true) ⊎ (r.id ≡ z)) l
      → is_followed rows z ≡ false
      → any (λ r. is_child form r && (r.id == z)) l ≡ true
      → tail_of rows form l ≡ some z
  unfolding tail_of
  tail_of-last form z [] h open_end here = ground (arith, here)
  tail_of-last form z (r ∷ l) (one, h) open_end here =
      elim (Bool-cases (is_child form r && not (is_followed rows r.id))) [
        | inl e ↦ elim (one (ground (arith, e))) [
          | inl f ↦ ground (arith, e, f)
          | inr f ↦ rw e (ap some f)
        ]
        | inr e ↦ rw e (
            tail_of-last form z l h open_end (elim (Bool-cases (r.id == z)) [
              | inl g ↦
                  let same : r.id ≡ z = (==_iff r.id z).0 g in
                  let no : is_followed rows r.id ≡ false = ap (is_followed rows) same ∙ open_end in
                  ground (arith, e, no, here)
              | inr g ↦ ground (arith, here, g)
            ]))
      ]

  tail_of-none :
      (form : Uuid) (l : List ElementRow)
      → All (λ r. is_child form r ≡ true → false ≡ true) l
      → tail_of rows form l ≡ none
  unfolding tail_of
  tail_of-none form [] h = refl
  tail_of-none form (r ∷ l) (one, h) = elim (Bool-cases (is_child form r)) [
    | inl e ↦ let no = one e in cc
    | inr e ↦ rw e (tail_of-none form l h)
  ]

last_id-some : (i : Uuid) (chain : List ElementRow) → last_id (some i) chain ≢ none
last_id-some i [] e = cc
last_id-some i (c ∷ chain) e = last_id-some c.id chain e

All-map :
    (P Q : ElementRow → Type 0) (rows : List ElementRow)
    → ((r : ElementRow) → P r → Q r)
    → All P rows
    → All Q rows
All-map P Q [] f h = tt
All-map P Q (r ∷ rows) f (p, h) = (f r p, All-map P Q rows f h)

chain-append :
    (p : Option Uuid) (chain : List ElementRow) (r : ElementRow)
    → IsChainFrom p chain
    → r.prev_sibling ≡ last_id p chain
    → IsChainFrom p (chain ++ r ∷ [])
chain-append p [] r h e = (e, tt)
chain-append p (c ∷ chain) r (prev, h) e = (prev, chain-append (some c.id) chain r h e)

ids-append :
    (chain : List ElementRow) (r : ElementRow) → ids (chain ++ r ∷ []) ≡ ids chain ++ r.id ∷ []
ids-append [] r = refl
ids-append (c ∷ chain) r = ap (λ l. c.id ∷ l) (ids-append chain r)

module _ (rows : List ElementRow) (form : Uuid) where
  tail_of_chain :
      (chain : List ElementRow)
      → IsChildren rows form chain
      → tail_of rows form rows ≡ last_id none chain
  tail_of_chain [] h = tail_of-none rows form rows h.all_children
  tail_of_chain (c ∷ chain) h = elim (Option-cases (last_id none (c ∷ chain))) [
    | inl e ↦ elim (last_id-some c.id chain e) [ ]
    | inr (z, e) ↦
        let child_or_last : (r : ElementRow)
            → (is_child form r ≡ true → any (λ i. i == r.id) (ids (c ∷ chain)) ≡ true)
            → is_child form r ≡ true
            → (is_followed rows r.id ≡ true) ⊎ (r.id ≡ z) =
          λ r known under.
            elim (chain_followed rows (c ∷ chain) none r.id h.linked h.among (known under)) [
              | inl f ↦ inl f
              | inr f ↦ inr (cc)
            ] in
        let there : any (λ r. is_child form r && (r.id == z)) rows ≡ true =
          elim (chain_end rows form z (c ∷ chain) none h.below h.among e) [
            | inl f ↦ cc
            | inr f ↦ f
          ] in
        tail_of-last rows form z rows
          (All-map _ (λ r. is_child form r ≡ true → (is_followed rows r.id ≡ true) ⊎ (r.id ≡ z))
            rows child_or_last h.all_children)
          (h.open_end z e) there
        ∙ sym e
  ]

  -- Where the rows below a form are those of a chain of siblings, with no row behind its end, the
  -- hidden input with the CSRF token that the wiring adds is the last child of the form: the loader
  -- orders its children as the chain, and the input behind them, in whatever order their rows
  -- come, where the identifiers are distinct.
  pub csrf_input-last :
      (new_id : Uuid → Uuid) (csrf_token : Text) (chain : List ElementRow)
      → IsChildren rows form chain
      → (into_values : List ElementRow → List ElementRow) (kids : List ElementRow)
      → ((l : List ElementRow) → SameRows (into_values l) l)
      → SameRows kids (chain ++ csrf_input new_id csrf_token rows form ∷ [])
      → HasDistinctIds (chain ++ csrf_input new_id csrf_token rows form ∷ [])
      → (ordered : List ElementRow) × (order_siblings into_values kids ≡ some ordered)
        × (ids ordered ≡ ids chain ++ new_id form ∷ [])
  unfolding csrf_input
  csrf_input-last new_id csrf_token chain h into_values kids keeps same distinct =
      let input = csrf_input new_id csrf_token rows form in
      let (ordered, e, f) =
        order_siblings-chain into_values kids (chain ++ input ∷ []) keeps same
          (chain-append none chain input h.linked (tail_of_chain chain h)) distinct in
      (ordered, e, f ∙ ids-append chain input)
