-- ===== src/Listing/Examples.antt =====
-- Runs of a listing: three jobs in pages of two, of which two are as old as each other.
use mathlib.Core.List.{Nodup, Nodup-cons}
use mathlib.Core.List.Pairwise
use lrllm.Prelude.{
  ℕ, ◌≡◌, refl, Bool, true, String, none, some, List, [], ◌∷◌, map, length, ◌==◌, string_eq,
  if◌then◌else◌, sort_desc, insert_desc, arith, ℕ_eq, not-mem_of_elem, ◌≤◌,
}
use lrllm.Jobs.Table.{JobRow, new_row, pending}
use lrllm.Listing.{Keyset, CursorText, list_page, walk}
use lrllm.Listing.Jobs.{job_filter, list_jobs}
use lrllm.Listing.Pages.{listing, walk-listing}

abbrev jobs : List JobRow
jobs =
    new_row "a" "kb" "d" none 5
    ∷ new_row "b" "kb" "d" none 7
    ∷ new_row "x" "other" "d" none 9
    ∷ new_row "c" "kb" "e" none 5
    ∷ []

abbrev uuid : String → ℕ
uuid id = if id == "a" then 1 else if id == "b" then 2 else if id == "c" then 3 else 4

abbrev kb_jobs : JobRow → Bool
kb_jobs = job_filter none (some pending) (some "kb")

abbrev first_page : List JobRow × Bool
first_page = list_jobs uuid none (some pending) 2 none (some "kb") jobs

finds_newest : (map (λ r. r.id) first_page.0 ≡ "b" ∷ "c" ∷ []) × (first_page.1 ≡ true)
unfolding list_jobs list_page sort_desc insert_desc
finds_newest = (refl, refl)

abbrev plain_text : CursorText Keyset
plain_text = record { encode = λ c. c; decode = λ c. some c }

apart : Nodup (map (λ r. uuid r.id) jobs)
apart = Nodup-cons.1 (
  not-mem_of_elem 1 (2 ∷ 4 ∷ 3 ∷ []) refl,
  Nodup-cons.1 (
    not-mem_of_elem 2 (4 ∷ 3 ∷ []) refl,
    Nodup-cons.1
        (not-mem_of_elem 4 (3 ∷ []) refl, Nodup-cons.1 (not-mem_of_elem 3 [] refl, Pairwise.nil)),
  ),
)

fit_three : length (listing (λ r. r.created_at) (λ r. r.id) uuid kb_jobs jobs) ≤ 3
unfolding sort_desc insert_desc
fit_three = omega arith

walk-listing_example :
    walk (λ r. r.created_at) (λ r. r.id) uuid plain_text kb_jobs 2 jobs 3 none
    ≡ listing (λ r. r.created_at) (λ r. r.id) uuid kb_jobs jobs
walk-listing_example =
    walk-listing (λ r. r.created_at) (λ r. r.id) uuid plain_text kb_jobs jobs 1 3 (λ c. refl) apart
      fit_three
