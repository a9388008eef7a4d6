-- ===== src/Action/Notify.antt =====
-- action/notify.go and notification/notification.go: the handler that sends messages, one job for each
-- where a worker runs it. Sending acts on the world; parsing an address is a parameter.
use vogel.Prelude.{
  ℕ, zero, suc, String, Bool, not, ◌&&◌, ◌||◌, Option, none, some, List, [], ◌∷◌, length, ltb, ◌==◌,
  string_eq, nat_eq, if◌then◌else◌,
}
use vogel.Action.{Run}
use vogel.Action.Attempt.{GoError, Kind}
use vogel.Action.Worker.{Ending, EnqueueParts, Handled, Handler}

pub record Message : Type 0 where
  pub to : String
  pub from : String
  pub subject : String
  pub html : String
  pub text : String

-- Message.Validate returns nil; `parses` is mail.ParseAddress.
unfoldable pub is_sendable : (String → Bool) → Message → Bool
is_sendable parses m =
    not (m.to == "")
    && parses m.to
    && (m.from == "" || parses m.from)
    && not (m.subject == "")
    && not (m.html == "" && m.text == "")

-- An error that `fmt.Errorf` makes, with one `%w` and with none.
abbrev pub wrapped : GoError → GoError
wrapped e = GoError.wraps "*fmt.wrapError" Kind.other e

abbrev pub made : GoError
made = GoError.plain "*errors.errorString" Kind.other

-- river.JobCancel
abbrev pub job_cancel : GoError → GoError
job_cancel e = GoError.wraps "*rivertype.JobCancelError" Kind.cancel e

-- invalidMessage; a nil message is `none`.
unfoldable pub invalid_message : (String → Bool) → Option Message → Option GoError
invalid_message parses none = some made
invalid_message parses (some m) = if is_sendable parses m then none else some (wrapped made)

-- The loop that validates every message before any is sent.
unfoldable pub first_invalid : (String → Bool) → List (Option Message) → Option GoError
first_invalid parses [] = none
first_invalid parses (m ∷ msgs) = elim (invalid_message parses m) [
  | none ↦ first_invalid parses msgs
  | some e ↦ some e
]

unfoldable pub message_at : ℕ → List (Option Message) → Option (Option Message)
message_at n [] = none
message_at zero (m ∷ msgs) = some m
message_at (suc n) (m ∷ msgs) = message_at n msgs

-- What a call of Notifier.Send answers.
abbrev pub Send : Type 0 → Type 0
Send W = Message → W → Option GoError × W

module _ {W : Type 0} where
  abbrev pub answered : Option GoError → W → Handled W
  answered e w = record { ending = Ending.returned e; result = none; world = w }

  abbrev pub send_wrapped : Option GoError × W → Handled W
  send_wrapped (none, w) = answered none w
  send_wrapped (some e, w) = answered (some (wrapped e)) w

  -- Sending a nil message would panic; it has been refused before.
  abbrev pub send_valid : Send W → Option Message → W → Handled W
  send_valid send none w = record { ending = Ending.panicked; result = none; world = w }
  send_valid send (some m) w = send_wrapped (send m w)

  abbrev pub send_checked : (String → Bool) → Send W → Option Message → W → Handled W
  send_checked parses send m w = elim (invalid_message parses m) [
    | some e ↦ answered (some (job_cancel e)) w
    | none ↦ send_valid send m w
  ]

  -- sendPart, for a part that is not 0
  unfoldable pub send_part : (String → Bool) → Send W → ℕ → List (Option Message) → W → Handled W
  unfolding invalid_message message_at
  send_part parses send zero msgs w = answered none w
  send_part parses send (suc n) msgs w = elim (message_at n msgs) [
    | none ↦ answered (some (job_cancel made)) w
    | some m ↦ send_checked parses send m w
  ]

  -- The last loop of NotifyHandler.
  unfoldable pub send_all : Send W → List (Option Message) → W → Handled W
  send_all send [] w = answered none w
  send_all send (none ∷ msgs) w = record { ending = Ending.panicked; result = none; world = w }
  send_all send (some m ∷ msgs) w =
      let (failure, w') = send m w in
      elim failure [ none ↦ send_all send msgs w' | some e ↦ answered (some (wrapped e)) w' ]

  abbrev pub enqueued : Option GoError × W → Handled W
  enqueued (none, w) = answered none w
  enqueued (some e, w) = answered (some (wrapped e)) w

  abbrev pub fan_out : Send W → Option (EnqueueParts W) → List (Option Message) → W → Handled W
  fan_out send none msgs w = send_all send msgs w
  fan_out send (some enqueue) msgs w =
      if ltb 1 (length msgs) then enqueued (enqueue (length msgs) w) else send_all send msgs w

  abbrev pub notify_all :
      (String → Bool) → Send W → Option (EnqueueParts W) → List (Option Message) → W → Handled W
  notify_all parses send parts msgs w = elim (first_invalid parses msgs) [
    | some e ↦ answered (some (job_cancel e)) w
    | none ↦ fan_out send parts msgs w
  ]

  abbrev pub notify_messages :
      (String → Bool) → Send W → Option (EnqueueParts W) → ℕ → List (Option Message) → W → Handled W
  notify_messages parses send parts zero msgs w = notify_all parses send parts msgs w
  notify_messages parses send parts (suc n) msgs w = send_part parses send (suc n) msgs w

  abbrev pub after_build :
      (String → Bool)
      → Send W
      → Option (EnqueueParts W)
      → ℕ
      → (Option GoError × List (Option Message)) × W
      → Handled W
  after_build parses send parts part ((some e, msgs), w) = answered (some (wrapped e)) w
  after_build parses send parts part ((none, msgs), w) =
      notify_messages parses send parts part msgs w

  -- NotifyHandler; `build` returns the messages of a run, or an error.
  unfoldable pub notify_handler :
      (String → Bool)
      → Send W
      → (Run → W → (Option GoError × List (Option Message)) × W)
      → Handler W
  unfolding first_invalid send_part send_all
  notify_handler parses send build parts r w = after_build parses send parts r.part (build r w)
