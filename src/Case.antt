-- ===== src/Case.antt =====
-- workflow/workflow.go and workflow/tokens.go: the data of a running case. Identifiers are the
-- numbers that a UUID's sixteen bytes spell, `uuid.Nil` is 0; a `time.Time` is its count of
-- nanoseconds. `open` is a keyword, so the status "open" is `opened`.
use vogel.Prelude.{ℕ, String, Bool, true, false, Option, List, ℤ}
use vogel.Definition.{Eligibility, JoinPolicy, Outcome}

pub data Status : Type 0 where
  opened closed cancelled : Status

abbrev pub is_open : Status → Bool
is_open Status.opened = true
is_open _ = false

pub data ActorKind : Type 0 where
  unset human operator system api_client anonymous unspecified : ActorKind
  unknown : String → ActorKind

pub record Actor : Type 0 where
  pub kind : ActorKind
  pub id : String
  pub acting_as : String
  pub on_behalf_of : String
  pub via : String

pub record BranchResult : Type 0 where
  pub token : ℕ
  pub outcome : Outcome
  pub seq : ℕ

-- JoinResult as a guard sees it: its branches carry no actor, comment or cause there.
pub record JoinResult : Type 0 where
  pub scope : ℕ
  pub join_node : String
  pub policy : JoinPolicy
  pub verdict : Outcome
  pub seq : ℕ
  pub branches : List BranchResult

pub record Case : Type 0 where
  pub id : ℕ
  pub definition : String
  pub version : ℤ
  pub tenant : String
  pub domain : String
  pub external_id : String
  pub unit : String
  pub state : String
  pub status : Status
  pub assigned_to : String
  pub opened_at : ℕ
  pub closed_at : Option ℕ
  pub deadline_at : Option ℕ
  pub revision : ℕ
  pub last_seq : ℕ
  pub join_result : Option JoinResult

pub data TokenStatus : Type 0 where
  active waiting consumed cancelled : TokenStatus

-- TokenStatus.Live
unfoldable pub live : TokenStatus → Bool
live TokenStatus.active = true
live TokenStatus.waiting = true
live _ = false

abbrev pub is_active : TokenStatus → Bool
is_active TokenStatus.active = true
is_active _ = false

abbrev pub is_waiting : TokenStatus → Bool
is_waiting TokenStatus.waiting = true
is_waiting _ = false

pub record Token : Type 0 where
  pub id : ℕ
  pub case_id : ℕ
  pub scope_id : ℕ
  pub node : String
  pub status : TokenStatus
  pub eligible : Eligibility
  pub assigned_to : String
  pub deadline_at : Option ℕ
  pub expired_deadline : Option ℕ
  pub entered_seq : ℕ
  pub entered_at : ℕ
  pub ended_seq : ℕ
  pub ended_at : Option ℕ
  pub outcome : Outcome

pub data ScopeStatus : Type 0 where
  opened joined cancelled closed : ScopeStatus

abbrev pub is_opened : ScopeStatus → Bool
is_opened ScopeStatus.opened = true
is_opened _ = false

pub record Scope : Type 0 where
  pub id : ℕ
  pub case_id : ℕ
  pub parent_id : Option ℕ
  pub split_node : String
  pub join_node : String
  pub expected : ℕ
  pub status : ScopeStatus
  pub opened_seq : ℕ
  pub closed_seq : ℕ

pub record JoinRecord : Type 0 where
  pub scope : Scope
  pub tokens : List Token
  pub verdict : Outcome
  pub branches : List BranchResult
