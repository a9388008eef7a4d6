-- ===== src/Operations/Expiry.antt =====
-- Expiring a deadline (workflow/operations.go: Expire, SetDeadline): each deadline expires once.
use vogel.Prelude.{
  ℕ, ◌<◌, ◌≤◌, true, ◌≡◌, refl, ap, inl, inr, none, some, ltb, nat_eq, ==_iff, Bool-cases,
  Option-cases, arith,
}
use vogel.Errors.{Err, ok, err}
use vogel.Case.{Token}
use vogel.Operations.{overdue, already}

overdue-late :
    (now : ℕ) (tok : Token) (deadline : ℕ)
    → overdue now tok ≡ ok deadline
    → (tok.deadline_at ≡ some deadline) × (deadline < now)
unfolding overdue
overdue-late now tok deadline h = elim (Option-cases tok.deadline_at) [
  | inl unset ↦ let q = rw unset at h in cc
  | inr (at, set) ↦ elim (Bool-cases (ltb at now)) [
    | inr early ↦ let q = rw (set, early) at h in cc
    | inl late ↦ elim (Bool-cases (already tok.expired_deadline at)) [
      | inl again ↦ let q = rw (set, late, again) at h in cc
      | inr first ↦
          let q : ok at ≡ ok deadline = rw (set, late, first) at h in
          let same : at ≡ deadline = cc in (rw set (ap some same), ground arith)
    ]
  ]
]

-- A deadline that Expire accepts is the token's and has passed; once it is marked, Expire refuses it
-- at every later time with ErrAlreadyExpired, until SetDeadline sets one anew: a new deadline expires
-- once it has passed, even if it is the old one again.
overdue-once :
    (now later deadline anew : ℕ) (tok : Token)
    → overdue now tok ≡ ok deadline
    → now ≤ later
    → anew < later
    → (tok.deadline_at ≡ some deadline)
      × (deadline < now)
      × (overdue later (record tok { expired_deadline = some deadline }) ≡ err Err.already_expired)
      × (overdue later (record tok { deadline_at = some anew; expired_deadline = none }) ≡ ok anew)
unfolding overdue already
overdue-once now later deadline anew tok h after passed =
    let (set, late) = overdue-late now tok deadline h in
    let still : ltb deadline later ≡ true = ground arith in
    let over : ltb anew later ≡ true = ground arith in
    (set, late, rw (set, still, (==_iff deadline deadline).1 refl) refl, rw over refl)
