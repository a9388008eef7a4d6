-- ===== src/Queries/Sweep.antt =====
-- Engine.Overdue, page after page (workflow/operations.go, workflow/postgres/repository.go), and the
-- call of Expire that it feeds.
use mathlib.Core.Path.{fun_ext}
use mathlib.Core.List.{append_assoc}
use vogel.Prelude.{
  ℕ, ltb, Bool, true, false, ◌&&◌, Option, none, some, List, [], ◌∷◌, ◌++◌, ◌≡◌, ◌≢◌, ◌∙◌, inl, inr,
  refl, sym, ap, arith, ◌≤◌, filter, sort_by, nat_eq, string_eq, Option-cases, All, All-of_All,
  All-both, All-every, All-split,
}
use vogel.Errors.{ok}
use vogel.Case.{Case, Token, is_active, is_open}
use vogel.Store.{Db}
use vogel.Operations.{overdue, already}
use vogel.Queries.{
  WorkItem, join_where, OverdueCursor, OverdueFilter, overdue_cursor, due, key_before, comes_after,
  is_overdue, is_before, differs, overdue_before, overdue_items,
}
use vogel.Queries.Joined.{
  OtherToken, TokensApart, join_where-All, join_where-apart, filter-join_where, filter-none,
  filter-every,
}
use vogel.Sorting.{
  sort_by-All, Sorted, Orders, sort_by-Sorted, filter-sort_by, Pairwise, sort_by-Pairwise,
}

overdue_before-Orders : Orders overdue_before
overdue_before-Orders = record {
  asym = λ x y h. key-asym (due x.token) x.token.id (due y.token) y.token.id h;
  trans_not = λ x y z h k.
      key-trans_not (due x.token) x.token.id (due y.token) y.token.id (due z.token) z.token.id h k;
}
  where
    key-asym : (d i d' i' : ℕ) → key_before d i d' i' ≡ true → key_before d' i' d i ≡ false
    key-asym d i d' i' h = ground arith

    key-trans_not :
        (d i d' i' d'' i'' : ℕ)
        → key_before d i d' i' ≡ false
        → key_before d' i' d'' i'' ≡ false
        → key_before d i d'' i'' ≡ false
    key-trans_not d i d' i' d'' i'' h k = ground arith

overdue_before_self : (x : WorkItem) → overdue_before x x ≡ false
overdue_before_self x = ground arith

key_trans :
    (d i d' i' d'' i'' : ℕ)
    → key_before d i d' i' ≡ true
    → key_before d' i' d'' i'' ≡ true
    → key_before d i d'' i'' ≡ true
key_trans d i d' i' d'' i'' h k = ground arith

key-total : (d i d' i' : ℕ) → i ≢ i' → key_before d i d' i' ≡ false → key_before d' i' d i ≡ true
key-total d i d' i' n h = ground arith

-- The elements on both sides of `x` in a sorted list without repetition.
module _ (x : WorkItem) (post : List WorkItem) where
  Sorted-around :
      (pre : List WorkItem)
      → Sorted overdue_before (pre ++ x ∷ post)
      → Pairwise OtherToken (pre ++ x ∷ post)
      → All (λ z. overdue_before x z ≡ false) (pre ++ x ∷ [])
        × All (λ z. overdue_before x z ≡ true) post
  Sorted-around [] s d = (
    ((overdue_before_self x, tt)),
    All-of_All (λ z. overdue_before x z ≡ true) post
        (λ z h. key-total (due z.token) z.token.id (due x.token) x.token.id (λ e. h.1 (sym e)) h.0)
        (All-both _ _ post s.0 d.0),
  )
  Sorted-around (y ∷ pre) s d =
      let (before, after) = Sorted-around pre s.1 d.1 in
      (((All-split _ pre (x ∷ post) s.0).1.0, before), after)

overdue_cursor-key :
    (x : WorkItem) (c : OverdueCursor)
    → overdue_cursor x ≡ some c
    → (due x.token ≡ c.deadline_at) × (x.token.id ≡ c.token_id)
unfolding overdue_cursor
overdue_cursor-key x c h = elim (Option-cases x.token.deadline_at) [
  | inl none' ↦ let q = rw (none', overdue_cursor) at h in cc
  | inr (at, e) ↦ ground arith
]

comes_after_trans :
    (a : Option OverdueCursor) (c : OverdueCursor) (t u : Token)
    → due t ≡ c.deadline_at
    → t.id ≡ c.token_id
    → comes_after a t ≡ true
    → comes_after (some c) u ≡ true
    → comes_after a u ≡ true
comes_after_trans none c t u hd hi h k = refl
comes_after_trans (some a) c t u hd hi h k =
    key_trans a.deadline_at a.token_id (due t) t.id (due u) u.id h (rw (hd, hi) k)

and_weaker : (a b c : Bool) → (c ≡ true → b ≡ true) → (a && c) ≡ ((a && b) && c)
and_weaker a b true h = rw (h refl) (ground arith)
and_weaker a b false h = ground arith

and_second : (a b : Bool) → (a && b) ≡ true → b ≡ true
and_second true b h = h
and_second false b h = cc

filter-around :
    (pre post : List WorkItem) (x : WorkItem) (c : OverdueCursor)
    → due x.token ≡ c.deadline_at
    → x.token.id ≡ c.token_id
    → All (λ z. overdue_before x z ≡ false) (pre ++ x ∷ [])
    → All (λ z. overdue_before x z ≡ true) post
    → filter (λ (i : WorkItem). comes_after (some c) i.token) (pre ++ x ∷ post) ≡ post
filter-around pre post x c hd hi before after =
    let q : WorkItem → Bool = λ i. comes_after (some c) i.token in
    ap (filter q) (sym (append_assoc pre (x ∷ []) post))
    ∙ filter-none q (pre ++ x ∷ []) post
        (All-of_All (λ z. q z ≡ false) (pre ++ x ∷ []) (λ z h. rw (← hd, ← hi) h) before)
    ∙ filter-every q post (All-of_All (λ z. q z ≡ true) post (λ z h. rw (← hd, ← hi) h) after)

first_four :
    (a b c d e g : Bool)
    → ((a && b && c && d && e) && g) ≡ true
    → (a ≡ true) × (b ≡ true) × (c ≡ true) × (d ≡ true)
first_four a b c d e g h = ground arith

not_already :
    (expired : Option ℕ) (at : ℕ) → differs expired (some at) ≡ true → already expired at ≡ false
unfolding already
not_already none at h = refl
not_already (some e) at h = ground arith

expirable :
    (f : OverdueFilter) (i : WorkItem) (now : ℕ)
    → f.before ≤ now
    → (is_overdue f.tenant f.before i.case i.token && comes_after f.after i.token) ≡ true
    → (at : ℕ) × (overdue now i.token ≡ ok at)
      × (i.token.deadline_at ≡ some at)
      × (is_active i.token.status ≡ true)
      × (is_open i.case.status ≡ true)
unfolding is_overdue overdue already
expirable f i now h m =
    let (runs, late, fresh, opened) =
      first_four (is_active i.token.status) (is_before i.token.deadline_at f.before)
        (differs i.token.expired_deadline i.token.deadline_at) (is_open i.case.status) _ _ m in
    elim (Option-cases i.token.deadline_at) [
      | inl none' ↦ let q = rw none' at late in cc
      | inr (at, e) ↦
          let due_before = rw e at late in
          let still : ltb at now ≡ true = ground arith in
          let unmarked = not_already i.token.expired_deadline at (rw e at fresh) in
          (at, rw (e, overdue, still, unmarked) refl, e, runs, opened)
    ]

module _ (f : OverdueFilter) (db : Db) where
  abbrev matches : Case → Token → Bool
  matches c t = is_overdue f.tenant f.before c t && comes_after f.after t

  items-Sorted : Sorted overdue_before (overdue_items f db)
  unfolding overdue_items
  items-Sorted =
      sort_by-Sorted overdue_before overdue_before-Orders (join_where matches db.tokens db)

  items-apart : TokensApart db.tokens → Pairwise OtherToken (overdue_items f db)
  unfolding overdue_items
  items-apart h =
      sort_by-Pairwise OtherToken (λ x y n e. n (sym e)) overdue_before
        (join_where matches db.tokens db) (join_where-apart matches db db.tokens h)

  -- Every item listed passes the query's tests.
  items-match : All (λ i. matches i.case i.token ≡ true) (overdue_items f db)
  unfolding overdue_items
  items-match =
      sort_by-All overdue_before (λ i. matches i.case i.token ≡ true)
        (join_where matches db.tokens db)
        (join_where-All matches db (λ i. matches i.case i.token ≡ true) (λ t. Unit {0}) db.tokens
          (λ c t _ passes. passes) (All-every (λ t. Unit {0}) db.tokens (λ t. tt)))

  -- A listing with a later cursor is what the cursor leaves of the listing.
  items-after :
      (c : OverdueCursor) (x : WorkItem)
      → due x.token ≡ c.deadline_at
      → x.token.id ≡ c.token_id
      → comes_after f.after x.token ≡ true
      → overdue_items (record f { after = some c }) db
        ≡ filter (λ i. comes_after (some c) i.token) (overdue_items f db)
  unfolding overdue_items
  items-after c x hd hi passed =
      let narrower : Case → Token → Bool =
        λ k t. is_overdue f.tenant f.before k t && comes_after (some c) t in
      let both : Case → Token → Bool = λ k t. matches k t && comes_after (some c) t in
      let same : narrower ≡ both = fun_ext λ k. fun_ext λ t.
        and_weaker (is_overdue f.tenant f.before k t) (comes_after f.after t)
          (comes_after (some c) t) (comes_after_trans f.after c x.token t hd hi passed) in
      rw same refl
      ∙ ap (sort_by overdue_before)
          (sym (filter-join_where matches (λ t. comes_after (some c) t) db.tokens db))
      ∙ sym (
          filter-sort_by overdue_before overdue_before-Orders (λ i. comes_after (some c) i.token)
            (join_where matches db.tokens db))

  -- Overdue resumes where a page ended: the listing after the cursor of one of its items is exactly
  -- what follows that item in the listing, so pages that each start from the last item before them
  -- list every token once and miss none. No two tokens may have the same identifier.
  pub overdue_items-resume :
      (pre post : List WorkItem) (x : WorkItem) (c : OverdueCursor)
      → TokensApart db.tokens
      → overdue_items f db ≡ pre ++ x ∷ post
      → overdue_cursor x ≡ some c
      → overdue_items (record f { after = some c }) db ≡ post
  overdue_items-resume pre post x c apart split cursor =
      let (hd, hi) = overdue_cursor-key x c cursor in
      let sorted = rw split at (items-Sorted) in
      let others = rw split at (items-apart apart) in
      let (before, after) = Sorted-around x post pre sorted others in
      let passing = (All-split _ pre (x ∷ post) (rw split at (items-match))).1.0 in
      let left = filter-around pre post x c hd hi before after in
      items-after c x hd hi (and_second _ _ passing) ∙ ap (filter _) split ∙ left

-- Every token that Overdue lists can be expired: if the clock of Expire has not gone back, the token
-- passes Expire's checks of its deadline, it is active, and its case is open.
pub overdue_items-expirable :
    (f : OverdueFilter) (db : Db) (now : ℕ)
    → f.before ≤ now
    → All
        (λ (i : WorkItem).
          (at : ℕ) × (overdue now i.token ≡ ok at)
          × (i.token.deadline_at ≡ some at)
          × (is_active i.token.status ≡ true)
          × (is_open i.case.status ≡ true))
        (overdue_items f db)
overdue_items-expirable f db now h =
    All-of_All _ (overdue_items f db) (λ i m. expirable f i now h m) (items-match f db)
