-- ===== src/Move/Comments.antt =====
-- The comment of a transition (workflow/workflow.go: checkComment).
use vogel.Prelude.{String, ◌≡◌, ◌≢◌, refl, ◌==◌, string_eq, ==_iff, Bool-cases, inl, inr}
use vogel.Errors.{Err, Ensures}
use vogel.Definition.{CommentPolicy, canonical}
use vogel.Move.{check_comment, comment_allowed}

abbrev pub Demands : CommentPolicy → String → Type 0
Demands CommentPolicy.required comment = comment ≢ ""
Demands CommentPolicy.none' comment = comment ≡ ""
Demands _ comment = Unit

abbrev pub Breaks : CommentPolicy → String → Err → Type 0
Breaks CommentPolicy.required comment x = (comment ≡ "") × (x ≡ Err.comment_required)
Breaks CommentPolicy.none' comment x = (comment ≢ "") × (x ≡ Err.comment_not_allowed)
Breaks _ comment x = ⊥

allowed-demanded :
    (p : CommentPolicy) (comment : String)
    → Ensures (Breaks p comment) (λ _. Demands p comment) (comment_allowed p (comment == ""))
unfolding comment_allowed
allowed-demanded CommentPolicy.none' comment = elim (Bool-cases (comment == "")) [
  | inl empty ↦ rw empty ((==_iff comment "").0 empty)
  | inr given ↦ rw given ((λ e. let q = (==_iff comment "").1 e in cc), refl)
]
allowed-demanded CommentPolicy.required comment = elim (Bool-cases (comment == "")) [
  | inl empty ↦ rw empty ((==_iff comment "").0 empty, refl)
  | inr given ↦ rw given (λ e. let q = (==_iff comment "").1 e in cc)
]
allowed-demanded CommentPolicy.alias_none comment = tt
allowed-demanded CommentPolicy.optional comment = tt
allowed-demanded (CommentPolicy.unknown s) comment = tt

-- A comment passes exactly where the transition's policy, its alias resolved, is met: required, there
-- is one; none, there is none; otherwise any. A required comment that is missing is
-- ErrCommentRequired, one that is not allowed ErrCommentNotAllowed, and there is no other error.
check_comment-demanded :
    (p : CommentPolicy) (comment : String)
    → Ensures
        (Breaks (canonical p) comment)
        (λ _. Demands (canonical p) comment)
        (check_comment p comment)
unfolding check_comment
check_comment-demanded p comment = allowed-demanded (canonical p) comment
