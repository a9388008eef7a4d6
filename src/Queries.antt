-- ===== src/Queries.antt =====
-- workflow/queries.go and workflow/operations.go (Overdue): the read side of the engine, and
-- workflow/postgres/repository.go: the list queries behind it. An identifier is ordered by its number,
-- which is the order of its bytes and of its text.
pub mod Participation
pub mod Reads
pub mod Joined
pub mod Sweep
pub mod Tests
use vogel.Prelude.{
  ℕ, zero, suc, ◌+◌, ltb, String, Bool, true, false, not, ◌&&◌, ◌||◌, Option, none, some, List, [],
  ◌∷◌, map, filter, find, any, is_empty, sort_by, ℤ, pos, ◌==◌, string_eq, nat_eq, if◌then◌else◌,
}
use vogel.Errors.{Err, Result, ok, err, fail_if, or_fail}
use vogel.Errors as Errors
use vogel.Definition.{Definition, Node, node, Eligibility, resolve_unit}
use vogel.Case.{Case, is_open, Token, is_active}
use vogel.Event.{Event, no_actor}
use vogel.Engine.{Engine, resolve_definition}
use vogel.JoinPolicy.{token_before, sort_tokens}
use vogel.Run.{Run, begin, pick}
use vogel.Store.{Db, find_case, get_by_id}
use vogel.History.{events_of}
use vogel.Tx.{Tx, ◌>>=◌, ◌>>◌, pure, lift, reads}
use vogel.Persist.{load, persist}
use vogel.Paging.{page, overdue_limit}

pub record WorkItem : Type 0 where
  pub case : Case
  pub token : Token

-- `workflow_token t JOIN workflow_case c ON c.id = t.case_id WHERE …`
unfoldable pub join_where : (Case → Token → Bool) → List Token → Db → List WorkItem
join_where p [] db = []
join_where p (t ∷ ts) db =
    let rest = join_where p ts db in
    elim (find_case t.case_id db) [
      | none ↦ rest
      | some c ↦ if p c t then record { case = c; token = t } ∷ rest else rest
    ]

-- `LIMIT` and `OFFSET`
abbrev pub limited {ℓ} : {A : Type ℓ} → ℕ → List A → List A
limited n [] = []
limited zero (x ∷ xs) = []
limited (suc n) (x ∷ xs) = x ∷ limited n xs

abbrev pub skipped {ℓ} : {A : Type ℓ} → ℕ → List A → List A
skipped n [] = []
skipped zero (x ∷ xs) = x ∷ xs
skipped (suc n) (x ∷ xs) = skipped n xs

-- `$1::TEXT IS NULL OR column = $1`, of a nullString.
abbrev pub any_or_same : String → String → Bool
any_or_same wanted value = wanted == "" || value == wanted

pub record InboxFilter : Type 0 where
  pub tenant : String
  pub domain : String
  -- A nil slice is `none`.
  pub states : Option (List String)
  -- Empty, nil or not, it is sent as NULL.
  pub eligibility : List Eligibility
  pub assigned_to : String
  pub unassigned : Bool
  pub overdue : Bool
  pub limit : ℤ
  pub offset : ℤ

abbrev same_eligibility : Eligibility → Eligibility → Bool
same_eligibility a b = a.position == b.position && a.unit == b.unit

abbrev among {ℓ} : {A : Type ℓ} → (A → Bool) → Option (List A) → Bool
among p none = true
among p (some xs) = any p xs

abbrev pub is_before : Option ℕ → ℕ → Bool
is_before none at = false
is_before (some deadline) at = ltb deadline at

-- The WHERE clause of ListWorkItems; `now` is the database's.
unfoldable pub in_inbox : InboxFilter → ℕ → Case → Token → Bool
in_inbox f now c t =
    is_active t.status
    && is_open c.status
    && any_or_same f.domain c.domain
    && among (λ (s : String). s == t.node) f.states
    && any_or_same f.assigned_to t.assigned_to
    && (not f.unassigned || t.assigned_to == "")
    && (not f.overdue || is_before t.deadline_at now)
    && any_or_same f.tenant c.tenant
    && (is_empty f.eligibility || any (same_eligibility t.eligible) f.eligibility)

-- `ORDER BY c.opened_at ASC, c.id, t.entered_seq ASC, t.id`
inbox_before : WorkItem → WorkItem → Bool
inbox_before a b =
    if not (a.case.opened_at == b.case.opened_at)
    then ltb a.case.opened_at b.case.opened_at
    else if not (a.case.id == b.case.id)
    then ltb a.case.id b.case.id
    else token_before a.token b.token

pub page_of {ℓ} : {A : Type ℓ} → Result (ℕ × ℕ) → List A → Result (List A)
page_of (err e) items = err e
page_of (ok (limit, offset)) items = ok (limited limit (skipped offset items))

-- Repository.ListWorkItems, and Engine.Inbox
unfoldable pub list_work_items : InboxFilter → ℕ → Db → Result (List WorkItem)
unfolding in_inbox inbox_before page_of
list_work_items f now db =
    page_of (page f.limit f.offset)
      (sort_by inbox_before (join_where (in_inbox f now) db.tokens db))

pub record OverdueCursor : Type 0 where
  pub deadline_at : ℕ
  pub token_id : ℕ

pub record OverdueFilter : Type 0 where
  pub tenant : String
  pub limit : ℤ
  -- The zero time is 0.
  pub before : ℕ
  pub after : Option OverdueCursor

-- WorkItem.OverdueCursor
unfoldable pub overdue_cursor : WorkItem → Option OverdueCursor
overdue_cursor i = elim i.token.deadline_at [
  | none ↦ none
  | some at ↦ some (record { deadline_at = at; token_id = i.token.id })
]

abbrev pub differs : Option ℕ → Option ℕ → Bool
differs none none = false
differs (some a) (some b) = not (a == b)
differs _ _ = true

-- `(deadline_at, id) < (deadline_at, id)`, both deadlines being set.
abbrev pub due : Token → ℕ
due t = elim t.deadline_at [ none ↦ 0 | some at ↦ at ]

abbrev pub key_before : ℕ → ℕ → ℕ → ℕ → Bool
key_before d i d' i' = if d == d' then ltb i i' else ltb d d'

abbrev pub comes_after : Option OverdueCursor → Token → Bool
comes_after none t = true
comes_after (some c) t = key_before c.deadline_at c.token_id (due t) t.id

-- The WHERE clause of ListOverdue but for the cursor.
unfoldable pub is_overdue : String → ℕ → Case → Token → Bool
is_overdue tenant before c t =
    is_active t.status
    && is_before t.deadline_at before
    && differs t.expired_deadline t.deadline_at
    && is_open c.status
    && any_or_same tenant c.tenant

-- `ORDER BY t.deadline_at ASC, t.id`
abbrev pub overdue_before : WorkItem → WorkItem → Bool
overdue_before a b = key_before (due a.token) a.token.id (due b.token) b.token.id

-- Repository.ListOverdue, without its LIMIT.
unfoldable pub overdue_items : OverdueFilter → Db → List WorkItem
overdue_items f db =
    sort_by overdue_before
      (join_where (λ c t. is_overdue f.tenant f.before c t && comes_after f.after t) db.tokens db)

unfoldable pub list_overdue : OverdueFilter → Db → List WorkItem
list_overdue f db = limited (overdue_limit f.limit) (overdue_items f db)

-- Engine.Overdue
unfoldable pub overdue_page : Engine → OverdueFilter → Db → List WorkItem
overdue_page e f db =
    list_overdue (record f { before = if f.before == 0 then e.now else f.before }) db

-- Repository.GetByExternalID
unfoldable pub get_by_external_id : String → String → String → Db → Result Case
unfolding or_fail
get_by_external_id tenant domain external_id db =
    or_fail
      (find (λ (c : Case). c.tenant == tenant && c.domain == domain && c.external_id == external_id)
        db.cases)
      Err.case_not_found
