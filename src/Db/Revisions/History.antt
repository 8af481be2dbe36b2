-- ===== src/Db/Revisions/History.antt =====
-- The revisions of a page as a history with a current entry, its past and its future.
use lovely_rs.Base.{
  ℕ, suc, ◌<◌, ◌≤◌, ◌≡◌, refl, ap, ◌∙◌, none, some, List, [], ◌∷◌, ◌++◌, ◌==◌, if◌then◌else◌, ◌⊎◌,
  inl, inr, arith,
}
use lovely_rs.Tree.Errors.{Uuid}
use lovely_rs.Db.Revisions.{Revision, last_below, first_above, find_snapshot, drop_redo}

-- The past has its newest entry first.
pub record History : Type 0 where
  pub past : List Revision
  pub current : Revision
  pub future : List Revision

-- A list read backwards, before another.
abbrev pub onto : List Revision → List Revision → List Revision
onto [] rest = rest
onto (v ∷ past) rest = onto past (v ∷ rest)

abbrev pub entries : History → List Revision
entries h = onto h.past (h.current ∷ h.future)

-- Entries of a page whose numbers fall from, or rise from, a number.
abbrev pub IsFalling : Uuid → ℕ → List Revision → Type 0
IsFalling page n [] = Unit {0}
IsFalling page n (v ∷ past) = (v.page_id ≡ page) × (v.seq < n) × IsFalling page v.seq past

abbrev pub IsRising : Uuid → ℕ → List Revision → Type 0
IsRising page n [] = Unit {0}
IsRising page n (v ∷ future) = (v.page_id ≡ page) × (n < v.seq) × IsRising page v.seq future

-- The revisions of a page.
unfoldable pub log : Uuid → List Revision → List Revision
log page [] = []
log page (v ∷ revisions) =
    let rest = log page revisions in if v.page_id == page then v ∷ rest else rest

module _ (page : Uuid) where
  pub last_below-log :
      (c : ℕ) (l : List Revision) → last_below page c l ≡ last_below page c (log page l)
  unfolding last_below log
  last_below-log c [] = refl
  last_below-log c (v ∷ l) = ground (arith, last_below-log c l)

  pub first_above-log :
      (c : ℕ) (l : List Revision) → first_above page c l ≡ first_above page c (log page l)
  unfolding first_above log
  first_above-log c [] = refl
  first_above-log c (v ∷ l) = ground (arith, first_above-log c l)

  pub find_snapshot-log :
      (t : ℕ) (l : List Revision) → find_snapshot page t l ≡ find_snapshot page t (log page l)
  unfolding find_snapshot log
  find_snapshot-log t [] = refl
  find_snapshot-log t (v ∷ l) = ground (arith, find_snapshot-log t l)

  pub log-drop_redo :
      (c : ℕ) (l : List Revision) → log page (drop_redo page c l) ≡ drop_redo page c (log page l)
  unfolding drop_redo log
  log-drop_redo c [] = refl
  log-drop_redo c (v ∷ l) = ground (arith, log-drop_redo c l)

  pub log-append : (l m : List Revision) → log page (l ++ m) ≡ log page l ++ log page m
  unfolding log
  log-append [] m = refl
  log-append (v ∷ l) m = ground (arith, log-append l m)

  -- The newest number below the current one.
  last_below-older :
      (c t : ℕ) (past l : List Revision)
      → IsFalling page t past
      → last_below page c l ≡ some t
      → t < c
      → last_below page c (onto past l) ≡ some t
  unfolding last_below
  last_below-older c t [] l h e lt = e
  last_below-older c t (v ∷ past) l (own, under, h) e lt =
      last_below-older c t past (v ∷ l) (falls past v.seq t h under)
        (ground (arith, own, under, e, lt)) lt
    where
      falls :
          (past : List Revision) (a b : ℕ) → IsFalling page a past → a < b → IsFalling page b past
      falls [] a b h lt = tt
      falls (v ∷ past) a b (own, under, h) lt = (own, omega (arith, under, lt), h)

  last_below-rising :
      (c n : ℕ) (l : List Revision) → IsRising page n l → c ≤ n → last_below page c l ≡ none
  unfolding last_below
  last_below-rising c n [] h le = refl
  last_below-rising c n (v ∷ l) (own, over, h) le =
      ground (arith, last_below-rising c v.seq l h (omega arith))

  first_above-rising :
      (c n : ℕ) (l : List Revision)
      → IsRising page n l
      → c ≤ n
      → (first_above page c l ≡ none) ⊎ ((t : ℕ) × (first_above page c l ≡ some t) × (n < t))
  unfolding first_above
  first_above-rising c n [] h le = inl refl
  first_above-rising c n (v ∷ l) (own, over, h) le =
      elim (first_above-rising c v.seq l h (omega arith)) [
        | inl e ↦ inr (v.seq, ground (arith, own, over, e, le), over)
        | inr (t, e, lt) ↦ inr (v.seq, ground (arith, own, over, e, le, lt), over)
      ]

  pub first_above-next :
      (c : ℕ) (v : Revision) (l : List Revision)
      → IsRising page c (v ∷ l)
      → first_above page c (v ∷ l) ≡ some v.seq
  unfolding first_above
  first_above-next c v l (own, over, h) =
      elim (first_above-rising c v.seq l h (omega (arith, over))) [
        | inl e ↦ ground (arith, own, over, e)
        | inr (t, e, lt) ↦ ground (arith, own, over, e, lt)
      ]

  pub last_below-prev :
      (c n : ℕ) (v : Revision) (past l : List Revision)
      → IsFalling page c (v ∷ past)
      → IsRising page n l
      → c ≤ n
      → (cur : Revision) → (cur.page_id ≡ page) × (cur.seq ≡ c)
      → last_below page c (onto (v ∷ past) (cur ∷ l)) ≡ some v.seq
  unfolding last_below
  last_below-prev c n v past l (own, under, h) up le cur (mine, e) =
      last_below-older c v.seq past (v ∷ cur ∷ l) h
        (ground (arith, own, under, mine, e, last_below-rising c n l up le)) under

  pub last_below-current :
      (cur : Revision) (l : List Revision)
      → cur.page_id ≡ page
      → IsRising page cur.seq l
      → last_below page cur.seq (cur ∷ l) ≡ none
  unfolding last_below
  last_below-current cur l own up =
      ground (arith, own, last_below-rising cur.seq cur.seq l up (omega arith))

  -- The entries at most as new as a number stand aside where those above it are looked at.
  pub first_above-older :
      (c n : ℕ) (past l : List Revision)
      → IsFalling page n past
      → n ≤ suc c
      → first_above page c (onto past l) ≡ first_above page c l
  unfolding first_above
  first_above-older c n [] l h le = refl
  first_above-older c n (v ∷ past) l (own, under, h) le =
      first_above-older c v.seq past (v ∷ l) h (omega (arith, under, le))
      ∙ ground (arith, own, under, le)

  pub drop_redo-older :
      (c n : ℕ) (past l : List Revision)
      → IsFalling page n past
      → n ≤ suc c
      → drop_redo page c (onto past l) ≡ onto past (drop_redo page c l)
  unfolding drop_redo
  drop_redo-older c n [] l h le = refl
  drop_redo-older c n (v ∷ past) l (own, under, h) le =
      let kept : drop_redo page c (v ∷ l) ≡ v ∷ drop_redo page c l =
        ground (arith, own, under, le) in
      drop_redo-older c v.seq past (v ∷ l) h (omega (arith, under, le)) ∙ ap (onto past) kept

  pub drop_redo-rising :
      (c n : ℕ) (l : List Revision) → IsRising page n l → c ≤ n → drop_redo page c l ≡ []
  unfolding drop_redo
  drop_redo-rising c n [] h le = refl
  drop_redo-rising c n (v ∷ l) (own, over, h) le =
      ground (arith, own, over, le, drop_redo-rising c v.seq l h (omega (arith, over, le)))

  pub find-older :
      (t n : ℕ) (past l : List Revision)
      → IsFalling page n past
      → n ≤ t
      → find_snapshot page t (onto past l) ≡ find_snapshot page t l
  unfolding find_snapshot
  find-older t n [] l h le = refl
  find-older t n (v ∷ past) l (own, under, h) le =
      find-older t v.seq past (v ∷ l) h (omega (arith, under, le)) ∙ ground (arith, own, under, le)

  pub find-here :
      (v : Revision) (l : List Revision)
      → v.page_id ≡ page
      → find_snapshot page v.seq (v ∷ l) ≡ some v.snapshot_json
  unfolding find_snapshot
  find-here v l own = ground (arith, own)

pub onto-append : (past l m : List Revision) → onto past l ++ m ≡ onto past (l ++ m)
onto-append [] l m = refl
onto-append (v ∷ past) l m = onto-append past (v ∷ l) m
