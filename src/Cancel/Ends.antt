-- ===== src/Cancel/Ends.antt =====
-- Cancelling a case (workflow/cancel.go: Cancel) ends every token and every scope of it.
use vogel.Prelude.{
  ℕ, String, Bool, true, false, ◌≡◌, refl, sym, ◌∙◌, ap, inl, inr, List, [], ◌∷◌, arith, any,
  filter, insert_by, sort_by, Bool-cases, ==_iff, ◌==◌, ◌||◌, nat_eq, All, All-of_All,
}
use vogel.Case.{Token, TokenStatus, live, Scope, ScopeStatus, is_opened, Status}
use vogel.Event.{Event}
use vogel.Run.{Run, emit, end, ended, write_token, write_scope, put_token, put_scope, next_seq}
use vogel.Run.Fields.{tokens-write_scope}
use vogel.JoinPolicy.{cancel_event, sort_tokens, token_before}
use vogel.Join.{cancel_scopes}
use vogel.Cancel.{cancel_tokens, cancel_run}

-- Live only if one of `ts` has its identifier.
abbrev Pending : List Token → Token → Type 0
Pending ts u = live u.status ≡ true → any (λ (t : Token). t.id == u.id) ts ≡ true

abbrev PendingScope : List Scope → Scope → Type 0
PendingScope ss u = is_opened u.status ≡ true → any (λ (s : Scope). s.id == u.id) ss ≡ true

end-Pending :
    (st : TokenStatus) (r : Run) (k : ℕ) (t : Token) (ts us : List Token)
    → live st ≡ false
    → All (Pending (t ∷ ts)) us
    → All (Pending ts) (put_token (ended r st k t) us)
unfolding put_token
end-Pending st r k t ts [] dead h = tt
end-Pending st r k t ts (u ∷ us) dead h = (
  elim (Bool-cases (u.id == t.id)) [
    | inl same ↦ rw same (λ alive. cc)
    | inr other ↦ rw other (λ alive.
        let q = h.0 alive in let differs : (t.id == u.id) ≡ false = ground arith in rw differs at q)
  ],
  end-Pending st r k t ts us dead h.1,
)

any-insert_by :
    (p : Token → Bool) (less : Token → Token → Bool) (x : Token) (xs : List Token)
    → any p (insert_by less x xs) ≡ (p x || any p xs)
any-insert_by p less x [] = refl
any-insert_by p less x (y ∷ ys) = let ih = any-insert_by p less x ys in ground arith

any-sort_by :
    (p : Token → Bool) (less : Token → Token → Bool) (xs : List Token)
    → any p (sort_by less xs) ≡ any p xs
any-sort_by p less [] = refl
any-sort_by p less (x ∷ xs) =
    any-insert_by p less x (sort_by less xs) ∙ ap (λ (b : Bool). p x || b) (any-sort_by p less xs)

module _ {A : Type 0} (id : A → ℕ) (p : A → Bool) where
  filter-finds :
      (xs : List A) → All (λ u. p u ≡ true → any (λ t. id t == id u) (filter p xs) ≡ true) xs
  filter-finds [] = tt
  filter-finds (x ∷ xs) = (
    (λ alive. rw (alive, (==_iff (id x) (id x)).1 refl) refl),
    All-of_All _ xs
        (λ u h alive. elim (Bool-cases (p x)) [
          | inl y ↦ rw y (elim (Bool-cases (id x == id u)) [
            | inl same ↦ rw same refl
            | inr other ↦ rw other (h alive)
          ])
          | inr n ↦ rw n (h alive)
        ])
        (filter-finds xs),
  )

tokens-end :
    (t : Token) (st : TokenStatus) (k : ℕ) (v : Event) (r : Run)
    → (end t st k (emit v r)).tokens ≡ put_token (ended r st k t) r.tokens
unfolding end write_token emit
tokens-end t st k v r = ground arith

scopes-end :
    (t : Token) (st : TokenStatus) (k : ℕ) (v : Event) (r : Run)
    → (end t st k (emit v r)).scopes ≡ r.scopes
unfolding end write_token emit
scopes-end t st k v r = ground arith

cancel_tokens-Pending :
    (reason : String) (ts : List Token) (r : Run)
    → All (Pending ts) r.tokens
    → All (Pending []) (cancel_tokens reason ts r).tokens
unfolding cancel_tokens live
cancel_tokens-Pending reason [] r h = h
cancel_tokens-Pending reason (t ∷ ts) r h = cancel_tokens-Pending reason ts _ (
    rw (tokens-end t TokenStatus.cancelled (next_seq r) (cancel_event reason t) r)
      (end-Pending TokenStatus.cancelled r (next_seq r) t ts r.tokens refl h))

scopes-cancel_tokens :
    (reason : String) (ts : List Token) (r : Run) → (cancel_tokens reason ts r).scopes ≡ r.scopes
unfolding cancel_tokens
scopes-cancel_tokens reason [] r = refl
scopes-cancel_tokens reason (t ∷ ts) r =
    scopes-cancel_tokens reason ts _
    ∙ scopes-end t TokenStatus.cancelled (next_seq r) (cancel_event reason t) r

put_scope-Pending :
    (k : ℕ) (s : Scope) (ss us : List Scope)
    → All (PendingScope (s ∷ ss)) us
    → All
        (PendingScope ss)
        (put_scope (record s { status = ScopeStatus.cancelled; closed_seq = k }) us)
unfolding put_scope
put_scope-Pending k s ss [] h = tt
put_scope-Pending k s ss (u ∷ us) h = (
  elim (Bool-cases (u.id == s.id)) [
    | inl same ↦ rw same (λ alive. cc)
    | inr other ↦ rw other (λ alive.
        let q = h.0 alive in let differs : (s.id == u.id) ≡ false = ground arith in rw differs at q)
  ],
  put_scope-Pending k s ss us h.1,
)

scopes-write_scope : (s : Scope) (r : Run) → (write_scope s r).scopes ≡ put_scope s r.scopes
unfolding write_scope
scopes-write_scope s r = ground arith

tokens-cancel_scopes :
    (ss : List Scope) (k : ℕ) (r : Run) → (cancel_scopes ss k r).tokens ≡ r.tokens
unfolding cancel_scopes
tokens-cancel_scopes [] k r = refl
tokens-cancel_scopes (s ∷ ss) k r = tokens-cancel_scopes ss k _ ∙ tokens-write_scope _ r

cancel_scopes-Pending :
    (ss : List Scope) (k : ℕ) (r : Run)
    → All (PendingScope ss) r.scopes
    → All (PendingScope []) (cancel_scopes ss k r).scopes
unfolding cancel_scopes
cancel_scopes-Pending [] k r h = h
cancel_scopes-Pending (s ∷ ss) k r h = cancel_scopes-Pending ss k _ (
    rw (scopes-write_scope (record s { status = ScopeStatus.cancelled; closed_seq = k }) r)
      (put_scope-Pending k s ss r.scopes h))

not-true : (b : Bool) → (b ≡ true → false ≡ true) → b ≡ false
not-true true h = sym (h refl)
not-true false h = refl

-- Cancelling a case leaves no token of it active or waiting and none of its scopes open, and the
-- case is cancelled.
pub cancel_run-ends :
    (reason : String) (r : Run)
    → All (λ (t : Token). live t.status ≡ false) (cancel_run reason r).tokens
      × All (λ (s : Scope). is_opened s.status ≡ false) (cancel_run reason r).scopes
      × ((cancel_run reason r).case.status ≡ Status.cancelled)
unfolding cancel_run sort_tokens emit
cancel_run-ends reason r = (
  rw (tokens-cancel_scopes (filter (λ (s : Scope). is_opened s.status) r.scopes) _ _) (
      All-of_All _ _ (λ t. not-true (live t.status))
        (cancel_tokens-Pending reason _ r (
          All-of_All _ r.tokens
            (λ t h alive.
              any-sort_by (λ (x : Token). x.id == t.id) token_before
                (filter (λ (x : Token). live x.status) r.tokens)
              ∙ h alive)
            (filter-finds (λ (t : Token). t.id) (λ (t : Token). live t.status) r.tokens)))),
  All-of_All _ _ (λ s. not-true (is_opened s.status))
      (cancel_scopes-Pending (filter (λ (s : Scope). is_opened s.status) r.scopes) _ _ (
        rw (scopes-cancel_tokens reason _ r)
          (filter-finds (λ (s : Scope). s.id) (λ (s : Scope). is_opened s.status) r.scopes))),
  refl,
)
