-- ===== src/Route/Numbering.antt =====
-- The events that a call plans (caseRun.emit), numbered from the case's LastSeq on, through every
-- state change of automatic routing.
use vogel.Prelude.{
  ℕ, zero, suc, ◌+◌, String, ◌≡◌, refl, ◌∙◌, inl, inr, ap, Option, none, some, List, [], ◌∷◌, ◌++◌,
  length, arith, Bool-cases, modify, ◌==◌, nat_eq, string_eq,
}
use vogel.Errors.{Result, Returns}
use vogel.Definition.{Node, Transition, JoinPolicy, Outcome}
use vogel.Case.{Token, TokenStatus, Scope, Actor, BranchResult}
use vogel.Event.{Event}
use vogel.Engine.{Engine}
use vogel.Run.{Run, emit, end, write_token, write_scope, add_token, add_scope, next_seq}
use vogel.JoinPolicy.{cancel_pending, cancel_event, close_branches}
use vogel.Settle.{settled, assign_to, close_root, closing}
use vogel.Split.{open_scope}
use vogel.Join.{
  end_all, cancel_scopes, finish_branches, consume_round, note_join_result, close_round, park,
}
use vogel.Route.{enter, route}
use vogel.Route.Invariant.{route-Done}
use vogel.Route.Keeps.{Keeps}

-- Consecutive Seqs after `b`, one time and one actor.
abbrev pub Numbered : ℕ → ℕ → Actor → List Event → Type 0
Numbered b now a [] = Unit
Numbered b now a (v ∷ vs) =
    (v.seq ≡ suc b) × (v.occurred_at ≡ now) × (v.actor ≡ a) × Numbered (suc b) now a vs

module _ (now : ℕ) (a : Actor) where
  Numbered-append :
      (b : ℕ) (vs : List Event) (v : Event)
      → Numbered b now a vs
      → v.seq ≡ b + length vs + 1
      → v.occurred_at ≡ now
      → v.actor ≡ a
      → Numbered b now a (vs ++ v ∷ [])
  Numbered-append b [] v h s t c = (omega arith, t, c, tt)
  Numbered-append b (u ∷ vs) v h s t c =
      (h.0, h.1, h.2, Numbered-append (suc b) vs v h.3 (omega arith) t c)

  Numbered-modify :
      (b i : ℕ) (f : Event → Event) (vs : List Event)
      → ((v : Event)
          → ((f v).seq ≡ v.seq) × ((f v).occurred_at ≡ v.occurred_at) × ((f v).actor ≡ v.actor))
      → Numbered b now a vs
      → Numbered b now a (modify i f vs)
  Numbered-modify b i f [] k h = h
  Numbered-modify b zero f (v ∷ vs) k h = ((k v).0 ∙ h.0, (k v).1 ∙ h.1, (k v).2 ∙ h.2, h.3)
  Numbered-modify b (suc i) f (v ∷ vs) k h = (h.0, h.1, h.2, Numbered-modify (suc b) i f vs k h.3)

-- A run whose planned events continue the case's numbering.
pub record Planned (b now : ℕ) (a : Actor) (r : Run) : Type 0 where
  pub base : r.base_seq ≡ b
  pub time : r.now ≡ now
  pub who : r.actor ≡ a
  pub events : Numbered b now a r.events

module _ (b now : ℕ) (a : Actor) where
  abbrev P : Run → Type 0
  P r = Planned b now a r

  pub Planned-emit : (v : Event) (r : Run) → P r → P (emit v r)
  unfolding emit
  Planned-emit v r h = record {
    base = h.base;
    time = h.time;
    who = h.who;
    events =
        Numbered-append now a b r.events _ h.events (ap (λ (k : ℕ). k + length r.events + 1) h.base)
          h.time h.who;
  }

  Planned-write_token : (t : Token) (r : Run) → P r → P (write_token t r)
  unfolding write_token
  Planned-write_token t r h = ground arith

  Planned-write_scope : (s : Scope) (r : Run) → P r → P (write_scope s r)
  unfolding write_scope
  Planned-write_scope s r h = ground arith

  pub Planned-end : (t : Token) (st : TokenStatus) (k : ℕ) (r : Run) → P r → P (end t st k r)
  unfolding end
  Planned-end t st k r h = ground arith

  Planned-end_all : (ts : List Token) (k : ℕ) (r : Run) → P r → P (end_all ts k r)
  unfolding end_all
  Planned-end_all [] k r h = h
  Planned-end_all (t ∷ ts) k r h =
      Planned-end_all ts k (end t TokenStatus.consumed k r)
        (Planned-end t TokenStatus.consumed k r h)

  Planned-cancel_scopes : (ss : List Scope) (k : ℕ) (r : Run) → P r → P (cancel_scopes ss k r)
  unfolding cancel_scopes
  Planned-cancel_scopes [] k r h = h
  Planned-cancel_scopes (s ∷ ss) k r h = Planned-cancel_scopes ss k _ (Planned-write_scope _ r h)

  -- The fields that Planned reads are those of another run.
  Planned-same :
      (r r' : Run)
      → r'.base_seq ≡ r.base_seq
      → r'.now ≡ r.now
      → r'.actor ≡ r.actor
      → r'.events ≡ r.events
      → P r
      → P r'
  Planned-same r r' hb hn ha he h = record {
    base = hb ∙ h.base;
    time = hn ∙ h.time;
    who = ha ∙ h.who;
    events = rw he h.events;
  }

  Planned-cancel_pending :
      (reason : String) (nested : List (Scope × ℕ)) (ts : List Token) (reported : List ℕ)
      (bs : List BranchResult) (r : Run)
      → P r
      → P (cancel_pending reason nested reported bs ts r).1
  unfolding cancel_pending
  Planned-cancel_pending reason nested [] reported bs r h = h
  Planned-cancel_pending reason nested (t ∷ ts) reported bs r h =
      Planned-cancel_pending reason nested ts _ _ _ (
        Planned-end t TokenStatus.cancelled (next_seq r) (emit (cancel_event reason t) r)
          (Planned-emit (cancel_event reason t) r h))

  Planned-finish_branches :
      (s : Scope) (p : JoinPolicy) (r : Run) → P r → P (finish_branches s p r).2
  unfolding finish_branches close_branches
  Planned-finish_branches s JoinPolicy.no_policy r h = h
  Planned-finish_branches s _ r h = Planned-cancel_pending _ _ _ [] [] r h

  Planned-note :
      (next : ℕ) (s : Scope) (p : JoinPolicy) (o : Outcome) (k : ℕ) (bs : List BranchResult)
      (r : Run)
      → P r
      → P (note_join_result next s p o k bs r)
  unfolding note_join_result
  Planned-note next s JoinPolicy.no_policy o k bs r h = h
  Planned-note next s _ o k bs r h = Planned-same r _ refl refl refl refl h

  Planned-consume_round :
      (s : Scope) (n : Node) (p : JoinPolicy) (o : Outcome) (ws : List Token)
      (bs : List BranchResult) (ss : List Scope) (id : ℕ) (r : Run)
      → P r
      → P (consume_round s n p o ws bs ss id r)
  unfolding consume_round
  Planned-consume_round s n p o ws bs ss id r h =
      Planned-write_scope _ _
        (Planned-cancel_scopes ss _ _ (Planned-end_all ws _ _ (Planned-emit _ r h)))

  Planned-add_token : (t : Token) (r : Run) → P r → P (add_token t r)
  unfolding add_token
  Planned-add_token t r h = Planned-same r _ refl refl refl refl h

  Planned-close_round :
      (e : Engine) (s : Scope) (n : Node) (p : JoinPolicy) (o : Outcome) (parent : ℕ) (r0 r1 : Run)
      → P r1
      → P (close_round e s n p o parent r0 r1).2
  unfolding close_round
  Planned-close_round e s n p o parent r0 r1 h = Planned-note _ s p o _ _ _ (
      Planned-add_token _ _ (
        Planned-same _ _ refl refl refl refl
          (Planned-consume_round s n p o _ _ _ _ _ (Planned-finish_branches s p r1 h))))

  Planned-settled : (tok : Token) (i : ℕ) (r : Run) → P r → P (settled tok i r)
  unfolding settled
  Planned-settled tok i r h = Planned-write_token tok _ (record {
    base = h.base;
    time = h.time;
    who = h.who;
    events = Numbered-modify now a b i _ r.events (λ v. (refl, refl, refl)) h.events;
  })

  Planned-assign_to :
      (tok : Token) (n : Node) (to : String) (r : Run) → P r → P (assign_to tok n to r)
  unfolding assign_to
  Planned-assign_to tok n to r h = elim (Bool-cases (to == "")) [
    | inl t ↦ rw t h
    | inr f ↦ rw f (Planned-emit _ _ (Planned-write_token _ r h))
  ]

  Planned-close_root : (s : Option Scope) (k : ℕ) (r : Run) → P r → P (close_root s k r)
  unfolding close_root
  Planned-close_root none k r h = h
  Planned-close_root (some s) k r h = Planned-write_scope _ r h

  Planned-closing :
      (tok : Token) (n : Node) (action : String) (r : Run) → P r → P (closing tok n action r)
  unfolding closing
  Planned-closing tok n action r h =
      Planned-same _ _ refl refl refl refl
        (Planned-close_root _ _ _ (Planned-end tok _ _ _ (Planned-emit _ r h)))

  Planned-enter :
      (tok : Token) (tr : Transition) (comment : String) (n : Node) (r : Run)
      → P r
      → P (enter tok tr comment n r)
  unfolding enter
  Planned-enter tok tr comment n r h = Planned-write_token _ _ (Planned-emit _ r h)

  Planned-open_scope :
      (e : Engine) (tok : Token) (n : Node) (bs : List (Token × Transition)) (r : Run)
      → P r
      → P (open_scope e tok n bs r)
  unfolding open_scope add_scope
  Planned-open_scope e tok n bs r h =
      Planned-same _ _ refl refl refl refl (Planned-end tok _ _ _ (Planned-emit _ r h))

  Planned-park : (tok : Token) (n : Node) (o : Outcome) (r : Run) → P r → P (park tok n o r)
  unfolding park
  Planned-park tok n o r h = Planned-emit _ _ (Planned-write_token _ r h)

  pub Planned-Keeps : (e : Engine) (stored : Result (List Event)) → Keeps e stored (λ _ r. P r) P
  Planned-Keeps e stored = record {
    enters = λ tok tr comment n r h. Planned-enter tok tr comment n r h;
    rests = λ tok n i r h _ _ _ deadline.
        (Planned-settled _ i r h, λ to. Planned-assign_to _ n to _ (Planned-settled _ i r h));
    ends = λ tok n action r h _ _. Planned-closing tok n action r h;
    counts = λ tok k r h. Planned-same r _ refl refl refl refl h;
    opens = λ tok n bs r h. Planned-open_scope e tok n bs r h;
    starts = λ tok r h. Planned-add_token tok r h;
    parks = λ tok n o s r h _ _ _ _ _. Planned-park tok n o r h;
    fires = λ s n p o parent k r h _ _.
        Planned-close_round e s n p o parent r _ (Planned-same r _ refl refl refl refl h);
  }

-- However many hops, splits and joins a call of `route` makes, if it succeeds, the events planned
-- so far and those it adds bear consecutive Seqs from the case's LastSeq on, and all bear the
-- call's time and actor, given that those planned before it did.
pub route-Planned :
    (e : Engine) (stored : Result (List Event)) (fuel b now : ℕ) (a : Actor) (tok : Token)
    (tr : Transition) (comment : String) (hops : ℕ) (r : Run)
    → Planned b now a r
    → Returns (Planned b now a) (route e stored fuel tok tr comment hops r)
route-Planned e stored fuel b now a =
    route-Done e stored (λ _ r. Planned b now a r) (Planned b now a)
      (Planned-Keeps b now a e stored) fuel
