-- ===== src/Definition.antt =====
-- workflow/workflow.go: the static side of the engine, a Definition of nodes and transitions, and
-- its lookups. Go's string enumerations are data types whose last constructor is any other string.
use vogel.Prelude.{
  String, Bool, true, false, Option, List, ℤ, find, filter, ◌==◌, string_eq, ◌||◌, if◌then◌else◌,
}

pub data CommentPolicy : Type 0 where
  none' alias_none optional required : CommentPolicy
  unknown : String → CommentPolicy

-- CommentPolicy.Canonical: the alias "none" is the zero value.
unfoldable pub canonical : CommentPolicy → CommentPolicy
canonical CommentPolicy.alias_none = CommentPolicy.none'
canonical p = p

pub data NodeKind : Type 0 where
  task alias_task decision parallel inclusive join : NodeKind
  unknown : String → NodeKind

-- NodeKind.IsSplit
unfoldable pub is_split : NodeKind → Bool
is_split NodeKind.parallel = true
is_split NodeKind.inclusive = true
is_split _ = false

abbrev pub is_decision : NodeKind → Bool
is_decision NodeKind.decision = true
is_decision _ = false

abbrev pub is_join : NodeKind → Bool
is_join NodeKind.join = true
is_join _ = false

-- NodeKind.IsAutomatic
unfoldable pub is_automatic : NodeKind → Bool
unfolding is_split
is_automatic k = is_decision k || is_split k || is_join k

-- joinpolicy.go: the zero value is no policy.
pub data JoinPolicy : Type 0 where
  no_policy all_approve any_approve collect : JoinPolicy
  unknown : String → JoinPolicy

pub data Outcome : Type 0 where
  no_outcome approved rejected unanswered : Outcome
  unknown : String → Outcome

abbrev pub has_policy : JoinPolicy → Bool
has_policy JoinPolicy.no_policy = false
has_policy _ = true

pub record Eligibility : Type 0 where
  pub position : String
  pub unit : String

abbrev pub no_eligibility : Eligibility
no_eligibility = record { position = ""; unit = "" }

-- Eligibility.IsZero
unfoldable pub is_zero : Eligibility → Bool
is_zero e = e.position == ""

-- Eligibility.ResolveUnit
unfoldable pub resolve_unit : Eligibility → String → String
resolve_unit e case_unit = if e.unit == "" then case_unit else e.unit

pub record Node : Type 0 where
  pub id : String
  pub start : Bool
  pub terminal : Bool
  pub eligible : Eligibility
  pub deadline : ℤ
  pub deadline_rule : String
  pub kind : NodeKind
  pub effects : List String
  pub join : String
  pub on_expire : String
  pub join_policy : JoinPolicy
  pub assign_rule : String

pub record Transition : Type 0 where
  pub from : String
  pub to : String
  pub action : String
  pub guard : String
  pub comment : CommentPolicy
  pub is_return : Bool
  pub effects : List String
  pub outcome : Outcome

pub record Definition : Type 0 where
  pub name : String
  pub version : ℤ
  pub nodes : List Node
  pub transitions : List Transition

-- Definition.Node
unfoldable pub node : Definition → String → Option Node
node d id = find (λ (n : Node). n.id == id) d.nodes

-- Definition.StartNode
unfoldable pub start_node : Definition → Option Node
start_node d = find (λ (n : Node). n.start) d.nodes

-- Definition.TransitionsFrom
unfoldable pub transitions_from : Definition → String → List Transition
transitions_from d id = filter (λ (t : Transition). t.from == id) d.transitions

-- findTransition (move.go)
unfoldable pub find_transition : List Transition → String → Option Transition
find_transition candidates action = find (λ (t : Transition). t.action == action) candidates
