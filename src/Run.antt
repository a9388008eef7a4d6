-- ===== src/Run.antt =====
-- workflow/run.go: `caseRun`, one call's working copy of a case, and the operations on it. The source
-- holds pointers into `tokens` and `scopes`; here a pointer is the value it points to, and a write
-- through it replaces the entry with that identifier, which is the table's primary key.
pub mod Fields
pub mod Load
use vogel.Prelude.{
  ℕ, ◌+◌, String, Bool, true, false, ◌&&◌, Option, none, some, List, [], ◌∷◌, ◌++◌, map, find,
  filter, any, length, is_empty, sort_by, ltb, ◌==◌, string_eq, nat_eq, if◌then◌else◌,
}
use vogel.Errors.{Err, Result, ok, err}
use vogel.Definition.{
  Definition, Node, node, Transition, Eligibility, no_eligibility, is_zero, resolve_unit,
}
use vogel.Case.{Case, is_open, Token, TokenStatus, is_active, Scope, Actor, JoinRecord, JoinResult}
use vogel.Event.{Event, no_actor}
use vogel.Engine.{max_gateway_steps}

pub record Run : Type 0 where
  pub case : Case
  pub definition : Definition
  pub tokens : List Token
  pub scopes : List Scope
  -- Sets of identifiers.
  pub created : List ℕ
  pub changed : List ℕ
  pub now : ℕ
  pub actor : Actor
  pub base_seq : ℕ
  pub events : List Event
  pub joined : List JoinRecord
  pub gateway_steps : ℕ
  pub join_results : List (ℕ × JoinResult)
  -- How many identifiers the call drew from `uuid.New`.
  pub drawn : ℕ

unfoldable pub contains : List ℕ → ℕ → Bool
contains ids id = any (λ (i : ℕ). i == id) ids

-- caseRun.touch
unfoldable pub touch : ℕ → Run → Run
unfolding contains
touch id r = if contains r.created id then r else record r { changed = id ∷ r.changed }

unfoldable pub put_token : Token → List Token → List Token
put_token t ts = map (λ (u : Token). if u.id == t.id then t else u) ts

unfoldable pub put_scope : Scope → List Scope → List Scope
put_scope s ss = map (λ (u : Scope). if u.id == s.id then s else u) ss

-- Writes through a token's pointer, then `touch`.
unfoldable pub write_token : Token → Run → Run
unfolding touch put_token
write_token t r = touch t.id (record r { tokens = put_token t r.tokens })

unfoldable pub write_scope : Scope → Run → Run
unfolding touch put_scope
write_scope s r = touch s.id (record r { scopes = put_scope s r.scopes })

-- caseRun.addToken
unfoldable pub add_token : Token → Run → Run
add_token t r = record r { tokens = r.tokens ++ t ∷ []; created = t.id ∷ r.created }

-- `run.scopes = append(run.scopes, scope); run.created[scope.ID] = true`
unfoldable pub add_scope : Scope → Run → Run
add_scope s r = record r { scopes = r.scopes ++ s ∷ []; created = s.id ∷ r.created }

-- caseRun.scope and caseRun.token
unfoldable pub scope : ℕ → Run → Option Scope
scope id r = find (λ (s : Scope). s.id == id) r.scopes

unfoldable pub token : ℕ → Run → Option Token
token id r = find (λ (t : Token). t.id == id) r.tokens

-- The Seq that `emit` gives the next event.
abbrev pub next_seq : Run → ℕ
next_seq r = r.base_seq + length r.events + 1

-- caseRun.emit
unfoldable pub emit : Event → Run → Run
emit evt r = record r {
  events = r.events ++ (record evt { seq = next_seq r; occurred_at = r.now; actor = r.actor }) ∷ [];
}

abbrev pub ended : Run → TokenStatus → ℕ → Token → Token
ended r status seq tok = record tok {
  status = status;
  ended_seq = seq;
  ended_at = some r.now;
  assigned_to = "";
  deadline_at = none;
  expired_deadline = none;
}

-- caseRun.end
unfoldable pub end : Token → TokenStatus → ℕ → Run → Run
unfolding write_token
end tok status seq r = write_token (ended r status seq tok) r

-- caseRun.active: the active tokens by EnteredSeq, stably.
unfoldable pub active : Run → List Token
active r =
    sort_by (λ (a b : Token). ltb a.entered_seq b.entered_seq)
      (filter (λ (t : Token). is_active t.status) r.tokens)

only_token : List Token → Result Token
only_token [] = err Err.token_not_found
only_token (t ∷ []) = ok t
only_token (t ∷ u ∷ ts) = err Err.token_required

or_not_found : Option Token → Result Token
or_not_found none = err Err.token_not_found
or_not_found (some t) = ok t

-- caseRun.pick: 0, `uuid.Nil`, names the only active token.
unfoldable pub pick : ℕ → Run → Result Token
unfolding active only_token or_not_found
pick id r =
    if id == 0
    then only_token (active r)
    else or_not_found (find (λ (t : Token). t.id == id) (active r))

join_result_of : ℕ → List (ℕ × JoinResult) → Option JoinResult
join_result_of id [] = none
join_result_of id ((i, j) ∷ rest) = if i == id then some j else join_result_of id rest

-- caseRun.snapshot
unfoldable pub snapshot : Token → String → Run → Case
unfolding join_result_of
snapshot tok at r = record (r.case) {
  state = at;
  assigned_to = tok.assigned_to;
  deadline_at = tok.deadline_at;
  join_result = join_result_of tok.id r.join_results;
}

-- caseRun.gatewayStep
unfoldable pub gateway_step : Run → Result Run
gateway_step r =
    if ltb max_gateway_steps (r.gateway_steps + 1)
    then err Err.too_many_decision_hops
    else ok (record r { gateway_steps = r.gateway_steps + 1 })

-- resolvedEligibility
unfoldable pub resolved_eligibility : Node → String → Eligibility
unfolding is_zero resolve_unit
resolved_eligibility n case_unit =
    if is_zero n.eligible
    then no_eligibility
    else record { position = n.eligible.position; unit = resolve_unit n.eligible case_unit }

unfoldable pub eligibility_at : Definition → String → Token → Option Eligibility
eligibility_at d case_unit t = elim (node d t.node) [
  | none ↦ none
  | some n ↦ if is_zero n.eligible then none else some (resolved_eligibility n case_unit)
]

unfoldable pub fill : Token → Option Eligibility → Run → Run
fill t none r = r
fill t (some eligible) r = write_token (record t { eligible = eligible }) r

-- The loop of caseRun.fillEligibility.
unfoldable pub fill_eligibility : List Token → Run → Run
fill_eligibility [] r = r
fill_eligibility (t ∷ ts) r = fill_eligibility ts (
    if is_active t.status && is_zero t.eligible
    then fill t (eligibility_at r.definition r.case.unit t) r
    else r)

-- Engine.loadRun, given what ListTokens and ListScopes returned.
unfoldable pub load_run : List Token → List Scope → Case → Definition → Result Run
load_run tokens scopes c d =
    if is_empty tokens && is_open c.status
    then err Err.case_without_tokens
    else ok (
        fill_eligibility tokens (record {
          case = c;
          definition = d;
          tokens = tokens;
          scopes = scopes;
          created = [];
          changed = [];
          now = 0;
          actor = no_actor;
          base_seq = c.last_seq;
          events = [];
          joined = [];
          gateway_steps = 0;
          join_results = [];
          drawn = 0;
        }))

-- caseRun.begin
unfoldable pub begin : ℕ → Actor → Run → Run
begin now actor r = record r { now = now; actor = actor }

-- A call of Engine.route: the token, the transition it takes, the comment of the first hop, and
-- the hops already made.
abbrev pub Route : Type 0
Route = Token → Transition → String → ℕ → Run → Result Run
