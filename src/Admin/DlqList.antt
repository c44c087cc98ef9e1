-- ===== src/Admin/DlqList.antt =====
-- `AdminDlqService.list`: the dead letters by what has become of them.
use orbit_exchange.Base.{
  ℕ, suc, ◌≡◌, ◌<◌, Bool, true, false, not, ◌&&◌, ◌||◌, List, [], ◌∷◌, Option, none, some, ltb,
  ◌==◌, keep_if, IsKeyed, length, take,
}
use orbit_exchange.Base.Outcome.{Result}
use orbit_exchange.Shared.{KafkaTopic}
use orbit_exchange.Paging.{Page, page, page_size, present, from_cursor, reverse}
use orbit_exchange.Paging.Follow.{follow}
use orbit_exchange.Paging.Follow.Queries.{follow-newest}
use orbit_exchange.Admin.AdminDlq.{DlqEvent, Resolution, replayed, dismissed}
use orbit_exchange.Admin.Listings.{unless_absent, same_topic}

-- `status`; an absent one is 'pending'.
pub data DlqStatus : Type 0 where
  pending replayed_success replayed_failed dismissed_only all : DlqStatus

abbrev is_resolved_as : Resolution → Option Resolution → Bool
is_resolved_as how none = false
is_resolved_as replayed (some replayed) = true
is_resolved_as dismissed (some dismissed) = true
is_resolved_as how (some other) = false

abbrev is_unresolved : Option ℕ → Bool
is_unresolved none = true
is_unresolved (some t) = false

abbrev of_status : DlqStatus → DlqEvent → Bool
of_status pending r = is_unresolved r.resolved_at
of_status replayed_success r = is_resolved_as replayed r.resolution
of_status replayed_failed r = is_resolved_as replayed r.resolution
of_status dismissed_only r = is_resolved_as dismissed r.resolution
of_status all r = true

abbrev is_number : Option ℕ → ℕ → Bool
is_number none n = false
is_number (some m) n = m == n

abbrev pub matches_letter : DlqStatus → Option ℕ → Option KafkaTopic → DlqEvent → Bool
matches_letter status worker topic r =
    of_status status r
    && unless_absent worker (is_number r.worker)
    && unless_absent topic (same_topic r.original_topic)

-- A row that was replayed from this one.
abbrev pub has_descendant : List DlqEvent → ℕ → Bool
has_descendant [] id = false
has_descendant (r ∷ rows) id = is_number r.replayed_from id || has_descendant rows id

-- What is filtered after the query.
abbrev pub split : DlqStatus → List DlqEvent → List DlqEvent → List DlqEvent
split pending table rows = rows
split replayed_success table rows = keep_if (λ r. not (has_descendant table r.id)) rows
split replayed_failed table rows = keep_if (λ r. has_descendant table r.id) rows
split dismissed_only table rows = rows
split all table rows = rows

-- The badge of a row with its first descendant is left out.
unfoldable pub list_dlq :
    DlqStatus
    → Option ℕ
    → Option KafkaTopic
    → Option ℕ
    → List DlqEvent
    → Option ℕ
    → Result (Page DlqEvent)
list_dlq status worker topic opt table cursor =
    let n = page_size opt 50 200 in
    let found = reverse (keep_if (matches_letter status worker topic) table) in
    let rows = split status table (take (suc n) (from_cursor (λ r. r.id) cursor found)) in
    present (λ r. r.id) (ltb n (length rows)) n rows

-- No filter is applied after the query.
abbrev pub IsPlain : DlqStatus → Type 0
IsPlain pending = Unit {0}
IsPlain replayed_success = ⊥
IsPlain replayed_failed = ⊥
IsPlain dismissed_only = Unit {0}
IsPlain all = Unit {0}

-- The pages of the letters that are pending, dismissed or of any status, followed from the first
-- one, end, and show exactly the letters that match, each once and newest first; a page is asked to
-- show at least one, and ids are unique.
pub follow-list_dlq :
    (status : DlqStatus) (worker : Option ℕ) (topic : Option KafkaTopic) (opt : Option ℕ)
    (table : List DlqEvent)
    → IsPlain status
    → 0 < page_size opt 50 200
    → IsKeyed (λ r. r.id) table
    → follow
        (suc (length (reverse (keep_if (matches_letter status worker topic) table))))
        (list_dlq status worker topic opt table)
        none
      ≡ some (reverse (keep_if (matches_letter status worker topic) table))
unfolding list_dlq page
follow-list_dlq pending worker topic opt table plain shows keyed =
    follow-newest (λ r. r.id) (matches_letter pending worker topic) (page_size opt 50 200) table
      shows keyed
follow-list_dlq replayed_success worker topic opt table plain shows keyed = absurd plain
follow-list_dlq replayed_failed worker topic opt table plain shows keyed = absurd plain
follow-list_dlq dismissed_only worker topic opt table plain shows keyed =
    follow-newest (λ r. r.id) (matches_letter dismissed_only worker topic) (page_size opt 50 200)
      table shows keyed
follow-list_dlq all worker topic opt table plain shows keyed =
    follow-newest (λ r. r.id) (matches_letter all worker topic) (page_size opt 50 200) table shows
      keyed
