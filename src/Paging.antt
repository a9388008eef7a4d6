-- ===== src/Paging.antt =====
-- workflow/workflow.go: the LIMIT and OFFSET of a list query (page, InboxFilter.Page,
-- ParticipationFilter.Page), and OverdueFilter.Page of workflow/operations.go.
pub mod Bounds
use vogel.Prelude.{ℕ, zero, suc, ℤ, pos, negsuc, ltb, if◌then◌else◌}
use vogel.Errors.{Err, Result, ok, err}

abbrev pub default_list_limit : ℕ
default_list_limit = 20

abbrev pub max_list_limit : ℕ
max_list_limit = 1000

abbrev pub max_list_offset : ℕ
max_list_offset = 100000

unfoldable pub clamp_limit : ℤ → ℕ
clamp_limit (negsuc n) = default_list_limit
clamp_limit (pos zero) = default_list_limit
clamp_limit (pos (suc n)) = if ltb max_list_limit (suc n) then max_list_limit else suc n

-- page
unfoldable pub page : ℤ → ℤ → Result (ℕ × ℕ)
page limit (negsuc n) = err Err.offset_out_of_range
page limit (pos offset) =
    if ltb max_list_offset offset
    then err Err.offset_out_of_range
    else ok (clamp_limit limit, offset)

page_limit : Result (ℕ × ℕ) → ℕ
page_limit (ok (limit, offset)) = limit
page_limit (err e) = 0

-- OverdueFilter.Page
unfoldable pub overdue_limit : ℤ → ℕ
unfolding page page_limit
overdue_limit limit = page_limit (page limit (pos 0))
