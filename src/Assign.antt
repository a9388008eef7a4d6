-- ===== src/Assign.antt =====
-- workflow/assign.go: claiming, releasing and reassigning one token.
pub mod Races
pub mod Tests
use vogel.Prelude.{ℕ, String, not, ◌&&◌, Option, ◌==◌, string_eq, nat_eq, if◌then◌else◌}
use vogel.Errors.{Err, err, fail_if}
use vogel.Case.{Case, is_open, Token, Actor}
use vogel.Event.{EventKind, Detail, event}
use vogel.Text.{trim_space}
use vogel.Engine.{Engine, resolve_actor, check_revision}
use vogel.Run.{Run, begin, emit, write_token}
use vogel.Store.{get_by_id}
use vogel.Tx.{Tx, ◌>>=◌, ◌>>◌, pure, lift, reads}
use vogel.Persist.{persist, load_token}

-- The write that the three calls share: the token's assignee, and one event that records it.
unfoldable pub reassigned : Engine → Actor → EventKind → Detail → String → Token → Run → Run
reassigned e actor kind detail to tok run =
    emit (record (event kind tok.id tok.scope_id tok.node tok.node) { detail = detail })
      (write_token (record tok { assigned_to = to }) (begin e.now actor run))

-- `persist`, returning the case.
unfoldable pub save : Engine → Run → Tx Case
save e run = do (c, appended) ← persist e run; pure c

pub record ClaimInput : Type 0 where
  pub case_id : ℕ
  pub token_id : ℕ
  pub actor : Actor
  pub expected_revision : Option ℕ

-- ClaimWith, once the token is at hand.
unfoldable pub claim_token : Engine → Actor → Case → Run → Token → Tx Case
claim_token e actor c run tok =
    if tok.assigned_to == ""
    then save e
        (reassigned e actor EventKind.assigned (Detail.assignment "" actor.id "") actor.id tok run)
    else if tok.assigned_to == actor.id
    then pure c
    else lift (err Err.already_assigned)

-- Engine.ClaimWith; Engine.Claim gives it a human actor.
unfoldable pub claim : Engine → ClaimInput → Tx Case
claim e input = do
  actor ← lift (resolve_actor input.actor "")
  lift (fail_if (actor.id == "") Err.invalid_actor)
  c ← reads (get_by_id input.case_id)
  lift (check_revision c input.expected_revision)
  lift (fail_if (not (is_open c.status)) Err.case_closed)
  (run, tok) ← load_token e c input.token_id
  claim_token e actor c run tok

pub record ReleaseInput : Type 0 where
  pub case_id : ℕ
  pub token_id : ℕ
  pub actor : Actor
  pub reason : String
  pub expected_revision : Option ℕ

-- ReleaseWith, once the token is at hand.
unfoldable pub release_token : Engine → Actor → String → Run → Token → Tx Case
release_token e actor reason run tok = do
  lift (fail_if (tok.assigned_to == "") Err.not_assigned)
  lift (fail_if (not (actor.id == tok.assigned_to) && trim_space reason == "") Err.reason_required)
  save e (
      reassigned e actor EventKind.unassigned (Detail.assignment tok.assigned_to "" reason) "" tok
        run)

-- Engine.ReleaseWith
unfoldable pub release : Engine → ReleaseInput → Tx Case
release e input = do
  actor ← lift (resolve_actor input.actor "")
  c ← reads (get_by_id input.case_id)
  lift (check_revision c input.expected_revision)
  lift (fail_if (not (is_open c.status)) Err.not_assigned)
  (run, tok) ← load_token e c input.token_id
  release_token e actor input.reason run tok

pub record ReassignInput : Type 0 where
  pub case_id : ℕ
  pub token_id : ℕ
  pub to : String
  pub actor : Actor
  pub reason : String
  pub expected_revision : Option ℕ

-- Engine.Reassign
unfoldable pub reassign : Engine → ReassignInput → Tx Case
reassign e input = do
  let reason = trim_space input.reason
  lift (fail_if (reason == "") Err.reason_required)
  lift (fail_if (input.to == "") Err.invalid_actor)
  actor ← lift (resolve_actor input.actor "")
  c ← reads (get_by_id input.case_id)
  lift (check_revision c input.expected_revision)
  lift (fail_if (not (is_open c.status)) Err.case_closed)
  (run, tok) ← load_token e c input.token_id
  save e (
      reassigned e actor EventKind.assigned (Detail.assignment tok.assigned_to input.to reason)
        input.to tok run)
