-- ===== src/Listing.antt =====
-- app/api/pagination.py and app/storage/postgres/repositories/_common.py: pages of a listing by a
-- keyset cursor, newest first, as the repositories of documents, jobs and messages list them. An id
-- is a UUID, of which `uuid` gives the number; JSON, base64 and the format of dates are library code.
pub mod Pages
pub mod Jobs
mod Examples
use lrllm.Prelude.{
  ℕ, zero, suc, Bool, true, false, ◌&&◌, ◌||◌, String, Text, Option, none, some, List, [], ◌∷◌,
  ◌++◌, select, take, length, ltb, ◌==◌, ℕ_eq, sort_desc, if◌then◌else◌,
}

-- The time and the id that a cursor holds.
pub record Keyset : Type 0 where
  pub ts : ℕ
  pub id : String

-- The two directions of a cursor's text; decoding gives none where `decode_cursor` raises
-- INVALID_CURSOR.
pub record CursorText (T : Type 0) : Type 0 where
  pub encode : Keyset → T
  pub decode : T → Option Keyset

-- `(a.created_at, a.id) > (b.created_at, b.id)`
abbrev pub later : ℕ × ℕ → ℕ × ℕ → Bool
later (t, i) (u, j) = ltb u t || (t == u && ltb j i)

module _ {A : Type 0} (created_at : A → ℕ) (id : A → String) (uuid : String → ℕ) where
  abbrev pub key : A → ℕ × ℕ
  key r = (created_at r, uuid (id r))

  -- `_apply_cursor`, descending: a row is older than the cursor, or has its time and a smaller id.
  abbrev pub apply_cursor : Option Keyset → A → Bool
  apply_cursor none r = true
  apply_cursor (some c) r =
      ltb (created_at r) c.ts || (created_at r == c.ts && ltb (uuid (id r)) (uuid c.id))

  -- A page of the rows that meet a condition, and whether there are more.
  unfoldable pub list_page : (A → Bool) → ℕ → Option Keyset → List A → List A × Bool
  list_page condition limit cursor rows =
      let found =
        take (suc limit)
          (sort_desc later key (select (λ r. condition r && apply_cursor cursor r) rows)) in
      (take limit found, ltb limit (length found))

  abbrev pub last_of : A → List A → A
  last_of r [] = r
  last_of r (s ∷ rows) = last_of s rows

  module _ {T : Type 0} (text : CursorText T) where
    -- `next_cursor`
    unfoldable pub next_cursor : List A → Bool → Option T
    next_cursor [] has_more = none
    next_cursor (r ∷ rows) has_more =
        let last = last_of r rows in
        if has_more
        then some (text.encode (record { ts = created_at last; id = id last }))
        else none

    -- What a client makes of a page: the rows, and those of the pages after it.
    unfoldable pub follow : List A × Bool → (Option Keyset → List A) → List A
    unfolding next_cursor
    follow (page, has_more) later_pages = elim (next_cursor page has_more) [
      | none ↦ page
      | some shown ↦ elim (text.decode shown) [
        | none ↦ page
        | some next ↦ page ++ later_pages (some next)
      ]
    ]

    -- A client that follows the cursors from a page on, with at most so many requests.
    unfoldable pub walk : (A → Bool) → ℕ → List A → ℕ → Option Keyset → List A
    unfolding list_page follow
    walk condition limit rows zero cursor = []
    walk condition limit rows (suc requests) cursor =
        follow (list_page condition limit cursor rows) (walk condition limit rows requests)
