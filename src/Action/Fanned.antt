-- ===== src/Action/Fanned.antt =====
-- NotifyHandler under a worker: the messages of a run are sent by the jobs of its parts
-- (action/notify.go, action/worker.go).
use mathlib.Core.List.{append_assoc}
use vogel.Prelude.{
  ℕ, zero, suc, ◌<◌, String, Bool, Option, none, some, List, [], ◌∷◌, ◌++◌, ◌≡◌, ◌∙◌, ap, refl,
  arith, length, Option-cases, inl, inr,
}
use vogel.Action.{Run}
use vogel.Action.Attempt.{GoError}
use vogel.Action.Worker.{Ending, EnqueueParts, Handler}
use vogel.Action.Notify.{
  Message, Send, invalid_message, first_invalid, message_at, send_part, send_all, notify_handler,
  enqueued, fan_out, notify_all, send_valid, send_checked,
}

module _ {W : Type 0} where
  -- Each message is handed to Send once, in order, whatever Send answers.
  abbrev pub sent_each : Send W → List (Option Message) → W → W
  sent_each send [] w = w
  sent_each send (none ∷ msgs) w = sent_each send msgs w
  sent_each send (some m ∷ msgs) w = sent_each send msgs (send m w).1

  -- The jobs of `n` parts from part `i` on, run one after the other.
  abbrev pub run_parts : Handler W → Option (EnqueueParts W) → Run → ℕ → ℕ → W → W
  run_parts h parts r i zero w = w
  run_parts h parts r i (suc n) w =
      run_parts h parts r (suc i) n (h parts (record r { part = i }) w).world

message_at-append :
    (pre : List (Option Message)) (m : Option Message) (rest : List (Option Message))
    → message_at (length pre) (pre ++ m ∷ rest) ≡ some m
unfolding message_at
message_at-append [] m rest = refl
message_at-append (x ∷ pre) m rest = message_at-append pre m rest

length-snoc :
    (pre : List (Option Message)) (x : Option Message) → length (pre ++ x ∷ []) ≡ suc (length pre)
length-snoc [] x = refl
length-snoc (y ∷ pre) x = ap suc (length-snoc pre x)

module _ (parses : String → Bool) where
  first_invalid-cons :
      (m : Option Message) (rest : List (Option Message))
      → first_invalid parses (m ∷ rest) ≡ none
      → (invalid_message parses m ≡ none) × (first_invalid parses rest ≡ none)
  unfolding first_invalid
  first_invalid-cons m rest h = elim (Option-cases (invalid_message parses m)) [
    | inl fine ↦ (fine, rw (fine, first_invalid) at h)
    | inr (e, bad) ↦ let q = rw (bad, first_invalid) at h in cc
  ]

  invalid_message-some :
      (m : Option Message) → invalid_message parses m ≡ none → (x : Message) × (m ≡ some x)
  unfolding invalid_message
  invalid_message-some none h = cc
  invalid_message-some (some x) h = (x, refl)

  module _ {W : Type 0} (send : Send W) where
    sent_world :
        (x : Message) (w : W) (p : Option GoError × W)
        → send x w ≡ p
        → (send_valid send (some x) w).world ≡ p.1
    sent_world x w (none, w') e = rw e refl
    sent_world x w (some f, w') e = rw e refl

    -- A part's job sends its own message and no other.
    send_part-world :
        (pre : List (Option Message)) (x : Message) (rest : List (Option Message)) (w : W)
        → invalid_message parses (some x) ≡ none
        → (send_part parses send (suc (length pre)) (pre ++ some x ∷ rest) w).world ≡ (send x w).1
    unfolding send_part
    send_part-world pre x rest w fine =
        rw (message_at-append pre (some x) rest, send_part, fine, send_checked)
          (sent_world x w (send x w) refl)

    send_all-world :
        (msgs : List (Option Message)) (w : W)
        → first_invalid parses msgs ≡ none
        → (send_all send msgs w).ending ≡ Ending.returned none
        → (send_all send msgs w).world ≡ sent_each send msgs w
    unfolding send_all
    send_all-world [] w valid h = refl
    send_all-world (none ∷ msgs) w valid h = cc
    send_all-world (some x ∷ msgs) w valid h = elim (Option-cases (send x w).0) [
      | inr (e, failed) ↦ let q = rw (failed, send_all) at h in cc
      | inl done ↦
          rw (done, send_all)
            (send_all-world msgs (send x w).1 (first_invalid-cons (some x) msgs valid).1
              (rw (done, send_all) at h))
    ]

    module _ (build : Run → W → (Option GoError × List (Option Message)) × W)
        (parts : Option (EnqueueParts W)) (r : Run) (msgs : List (Option Message))
        (stable : (i : ℕ) (w : W) → build (record r { part = i }) w ≡ ((none, msgs), w)) where
      part_world :
          (pre : List (Option Message)) (x : Message) (rest : List (Option Message)) (w : W)
          → pre ++ some x ∷ rest ≡ msgs
          → invalid_message parses (some x) ≡ none
          → (notify_handler parses send build parts (record r { part = suc (length pre) }) w).world
            ≡ (send x w).1
      unfolding notify_handler
      part_world pre x rest w all fine =
          rw (stable (suc (length pre)) w, notify_handler)
            (rw (← all) (send_part-world pre x rest w fine))

      run_parts-sent :
          (pre rest : List (Option Message)) (w : W)
          → pre ++ rest ≡ msgs
          → first_invalid parses rest ≡ none
          → run_parts (notify_handler parses send build) parts r (suc (length pre)) (length rest) w
            ≡ sent_each send rest w
      run_parts-sent pre [] w all valid = refl
      run_parts-sent pre (none ∷ rest) w all valid =
          let bad = (first_invalid-cons none rest valid).0 in
          let q = (invalid_message-some none bad).1 in cc
      run_parts-sent pre (some x ∷ rest) w all valid =
          let (fine, later) = first_invalid-cons (some x) rest valid in
          let next =
            run_parts-sent (pre ++ some x ∷ []) rest (send x w).1
              (append_assoc pre (some x ∷ []) rest ∙ all) later in
          let after = rw (length-snoc pre (some x)) at next in
          ap
            (run_parts (notify_handler parses send build) parts r (suc (suc (length pre)))
              (length rest))
            (part_world pre x rest w all fine)
          ∙ after

      notify_whole :
          (w : W)
          → first_invalid parses msgs ≡ none
          → notify_handler parses send build parts (record r { part = 0 }) w
            ≡ fan_out send parts msgs w
      unfolding notify_handler
      notify_whole w valid = rw (stable 0 w, notify_handler) (rw (valid, notify_all) refl)

module _ {W : Type 0} (parses : String → Bool) (send : Send W)
    (build : Run → W → (Option GoError × List (Option Message)) × W) (r : Run)
    (msgs : List (Option Message)) where
  -- A run of several messages, all valid, sends each of them once. Under a worker the effect's own
  -- job sends none: it enqueues as many parts as there are messages. The jobs of those parts, run in
  -- order, hand each message to the notifier once and in order, whatever it answers, which leaves
  -- the world as a call outside a worker does that sends them all. The messages must be built the
  -- same for every part, and building them must change nothing.
  pub notify_handler-sends :
      (enqueue : EnqueueParts W) (w w' : W)
      → ((i : ℕ) (w : W) → build (record r { part = i }) w ≡ ((none, msgs), w))
      → first_invalid parses msgs ≡ none
      → 1 < length msgs
      → (notify_handler parses send build none (record r { part = 0 }) w').ending
        ≡ Ending.returned none
      → (notify_handler parses send build (some enqueue) (record r { part = 0 }) w
          ≡ enqueued (enqueue (length msgs) w))
        × (run_parts (notify_handler parses send build) (some enqueue) r 1 (length msgs) w'
            ≡ sent_each send msgs w')
        × ((notify_handler parses send build none (record r { part = 0 }) w').world
            ≡ sent_each send msgs w')
  notify_handler-sends enqueue w w' stable valid several whole = (
    rw (notify_whole parses send build (some enqueue) r msgs stable w valid) (ground arith),
    run_parts-sent parses send build (some enqueue) r msgs stable [] msgs w' refl valid,
    rw (notify_whole parses send build none r msgs stable w' valid) (
        send_all-world parses send msgs w' valid
          (rw (notify_whole parses send build none r msgs stable w' valid) at whole)),
  )
