-- ===== src/Action/Tests.antt =====
-- Effects dispatched, run and logged on small cases.
use vogel.Prelude.{
  ℕ, zero, suc, String, str_append, true, some, List, [], ◌∷◌, ◌≡◌, refl, pos, ap, sym, All,
  string_eq, nat_eq,
}
use vogel.Errors.{Result, ok}
use vogel.Definition.{
  Definition, node, canonical, is_split, is_automatic, is_zero, start_node, find_transition,
  transitions_from,
}
use vogel.Event.{Event, EventKind, event, no_actor}
use vogel.Names.{names, effect_names, deadline_rules, assign_rules}
use vogel.Engine.{Engine}
use vogel.Engine.Register as Registering
use vogel.Engine.Register.{check_effects, knows_effect, put_definition}
use vogel.Validate.{violations, reports, is_valid}
use vogel.Examples.{task, step_to, engine, open_row}
use vogel.Action.{
  Args, Run, Registry, Queue, Handle, Printing, handler, has_effect, register, effects_for, job_of,
  event_jobs, plan_from, plan, resolve_tx, enqueue_all, dispatch, as_sink, idempotency_key,
}
use vogel.Action.Planned.{same, registers, jobs_for, register-planned}
use vogel.Action.Keys.{is_plain, Prints, idempotency_key-apart, idempotency_key_clash}
use vogel.Action.Queued.{Unique, Distinct, has_job, admitted, dispatch-once}
use vogel.Rules.{
  mem, last_node, node_by_id, outgoing, is_kind, is_comment_policy, takes_no_comment, needs_comment,
  is_join_policy, effect_checks,
}
use vogel.Rules.Nodes.{automatic_checks, node_checks, nodes_checks, header_checks, count_checks}
use vogel.Rules.Transitions.{
  repeats, transition_checks, transition_reports, transitions_checks, on_expire_checks,
}
use vogel.Rules.Routes.{default_checks, join_checks, route_checks, routes_checks, dead_end_checks}
use vogel.Rules.Cycle.{
  path_from, visit_all, leave, visit, detect_from, detect_gateway_cycle, gateway_adjacency,
  gateway_nodes, cycle_checks,
}
use vogel.Rules.Reach.{offer_all, walk, adjacency, search, unreachable, reach_checks}
use vogel.Rules.Blocks.{
  contains, orders, members, grow, build_branch, build_block, blocks, incoming, best_branch,
  best_block, innermost_branch,
}
use vogel.Rules.Blocks.Check.{
  split_checks, naming_checks, arrives, sibling_checks, branch_checks, entry_checks, entered_checks,
  block_checks, home_checks, nested_in, nesting_checks, overlap_checks, return_checks,
  blocks_checks,
}
use vogel.Rules.Policies.{
  reaches_by, reaches, answers, check_branch_outcomes, check_rejected_route, parallel_checks,
  policy_checks, inclusive_checks, answer_checks, outcome_checks, policies_checks,
}

-- Two effects on the way to "sent", which notifies once more.
abbrev letter : Definition
letter = record {
  name = "letter";
  version = pos 1;
  nodes =
      record (task "draft") { start = true }
      ∷ record (task "sent") { terminal = true; effects = "notify" ∷ [] }
      ∷ [];
  transitions = record (step_to "draft" "send" "sent") { effects = "file" ∷ "stamp" ∷ [] } ∷ [];
}

-- The handlers are of no interest here.
abbrev office : Registry ℕ
office = record { handlers = ("notify", 1) ∷ ("file", 2) ∷ ("stamp", 3) ∷ [] }

-- A job table that is the list of its jobs.
abbrev job_table : Queue (List Args)
job_table = record { insert = λ a jobs. (ok tt, admitted a jobs) }

abbrev outbox : Engine
outbox = record (engine 6 200) { effect_sink = some (as_sink job_table office Handle.tx []) }

letter-registers : Registering.register outbox letter ≡ ok (put_definition letter outbox)
unfolding is_valid reports transition_reports violations canonical is_split is_automatic is_zero
    start_node find_transition transitions_from mem last_node node_by_id outgoing is_kind
    is_comment_policy takes_no_comment needs_comment is_join_policy effect_checks automatic_checks
    node_checks nodes_checks header_checks count_checks repeats transition_checks transitions_checks
    on_expire_checks default_checks join_checks route_checks routes_checks dead_end_checks path_from
    visit_all leave visit detect_from detect_gateway_cycle gateway_adjacency gateway_nodes
    cycle_checks offer_all walk adjacency search unreachable reach_checks contains orders members
    grow build_branch build_block blocks incoming best_branch best_block innermost_branch
    split_checks naming_checks arrives sibling_checks branch_checks entry_checks entered_checks
    block_checks home_checks nested_in nesting_checks overlap_checks return_checks blocks_checks
    reaches_by reaches answers check_branch_outcomes check_rejected_route parallel_checks
    policy_checks inclusive_checks answer_checks outcome_checks policies_checks Registering.register
    check_effects knows_effect as_sink has_effect handler effect_names names deadline_rules
    assign_rules
letter-registers = refl

abbrev pub sending : Event
sending = record (event EventKind.moved 7 7 "draft" "sent") {
  seq = 4;
  action = "send";
  actor_id = "ana";
}

abbrev larger_office : Registry ℕ
larger_office = record { handlers = ("print", 4) ∷ office.handlers }

office-grows : register office "print" (some 4) ≡ ok larger_office
unfolding register has_effect handler
office-grows = refl

register-planned_example :
    plan larger_office letter open_row (sending ∷ []) ≡ ok (jobs_for letter open_row (sending ∷ []))
register-planned_example =
    register-planned job_table office larger_office outbox (put_definition letter outbox) letter
      Handle.tx [] open_row (sending ∷ []) refl letter-registers
      (registers "print" (some 4) same office-grows)

letter_effects : effects_for letter sending ≡ "notify" ∷ "file" ∷ "stamp" ∷ []
unfolding effects_for node find_transition transitions_from
letter_effects = refl

abbrev jobs_of_letter : List Args
jobs_of_letter =
    job_of open_row sending "notify"
    ∷ job_of open_row sending "file"
    ∷ job_of open_row sending "stamp"
    ∷ []

letter_dispatch :
    dispatch job_table office Handle.tx letter open_row (sending ∷ []) [] ≡ (ok tt, jobs_of_letter)
unfolding dispatch plan plan_from event_jobs effects_for node find_transition transitions_from
    has_effect handler enqueue_all resolve_tx job_of
letter_dispatch = refl

letter_again :
    dispatch job_table office Handle.tx letter open_row (sending ∷ []) jobs_of_letter
    ≡ (ok tt, jobs_of_letter)
unfolding dispatch plan plan_from event_jobs effects_for node find_transition transitions_from
    has_effect handler enqueue_all resolve_tx job_of
letter_again = refl

job_table-Unique : Unique job_table (λ (jobs : List Args). jobs)
job_table-Unique = record {
  inserts = λ a t t' u h. ap (λ (r : Result (Unit {0}) × List Args). r.1) (sym h);
}

dispatch-once_example :
    (planned : List Args) × (plan office letter open_row (sending ∷ []) ≡ ok planned)
    × All (λ a. has_job a jobs_of_letter ≡ true) planned
    × Unit {0}
    × Distinct jobs_of_letter
    × (jobs_of_letter ≡ jobs_of_letter)
dispatch-once_example =
    dispatch-once job_table (λ (jobs : List Args). jobs) job_table-Unique office letter open_row
      (sending ∷ []) Handle.tx Handle.tx [] jobs_of_letter jobs_of_letter jobs_of_letter tt tt tt
      letter_dispatch refl letter_again

abbrev strokes : ℕ → String
strokes zero = ""
strokes (suc n) = String.◌∷◌ "I" (strokes n)

abbrev tally : Printing
tally = record { uuid = strokes; decimal = strokes }

strokes-plain : (n : ℕ) → is_plain (strokes n) ≡ true
strokes-plain zero = refl
strokes-plain (suc n) = strokes-plain n

strokes-apart : (m n : ℕ) → strokes m ≡ strokes n → m ≡ n
strokes-apart zero zero h = refl
strokes-apart zero (suc n) h = cc
strokes-apart (suc m) zero h = cc
strokes-apart (suc m) (suc n) h =
    let rest : strokes m ≡ strokes n = cc in ap suc (strokes-apart m n rest)

tally-Prints : Prints tally
tally-Prints = record {
  uuid_plain = strokes-plain;
  decimal_plain = strokes-plain;
  uuid_apart = strokes-apart;
  decimal_apart = strokes-apart;
}

-- The execution of the effect `name` that event 4 of case 7 caused.
abbrev pub execution : String → ℕ → Run
execution name part = record {
  effect = name;
  case_id = 7;
  token_id = 7;
  seq = 4;
  definition = "letter";
  version = pos 1;
  domain = "d";
  external_id = "x";
  unit = "u";
  actor = no_actor;
  actor_id = "";
  attempt = 1;
  part = part;
}

idempotency_key-apart_example :
    (◌≡◌ {A = ℕ} 7 7) × (◌≡◌ {A = ℕ} 4 4) × (◌≡◌ {A = String} "notify" "notify") × (◌≡◌ {A = ℕ} 2 2)
idempotency_key-apart_example =
    idempotency_key-apart tally tally-Prints (execution "notify" 2) (execution "notify" 2) refl refl
      refl

-- Part 2 of "notify" and the effect "notify/II" have one key.
clash :
    idempotency_key tally (execution "notify" 2)
    ≡ idempotency_key tally (execution (str_append "notify" (str_append "/" "II")) 0)
clash =
    idempotency_key_clash tally (execution "notify" 2)
      (execution (str_append "notify" (str_append "/" "II")) 0) refl refl refl refl refl
