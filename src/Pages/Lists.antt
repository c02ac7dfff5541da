-- ===== src/Pages/Lists.antt =====
-- What the repositories do alike: rows with the code of their source, filters, and windows.
use tender_phase.Prelude.{
  ℕ, zero, suc, String, Bool, true, false, ◌||◌, Option, none, some, List, [], ◌∷◌, str_eq, ◌==◌,
  take,
}
use tender_phase.Model.{SourceSite}
use tender_phase.Table
use tender_phase.Jobs.Creation.{source_id}

pub record Sourced (A : Type 0) : Type 0 where
  pub row : A
  pub source_code : String

module _ {A : Type 0} where
  abbrev pub with_source : A → Option SourceSite → List (Sourced A) → List (Sourced A)
  with_source x none rows = rows
  with_source x (some s) rows = record { row = x; source_code = s.code } ∷ rows

  -- `JOIN source_site ON source_site.id = row.source_site_id`
  unfoldable pub joined : (A → ℕ) → List SourceSite → List A → List (Sourced A)
  joined source_of sources [] = []
  joined source_of sources (x ∷ xs) =
      with_source x (Table.get source_id (source_of x) sources) (joined source_of sources xs)

-- `if value: WHERE column = value`
abbrev pub asks : Option String → String → Bool
asks none t = true
asks (some s) t = str_eq s "" || str_eq t s

-- `if value is not None: WHERE column = value`, for a column that may be NULL
abbrev pub asks_id : Option ℕ → Option ℕ → Bool
asks_id none column = true
asks_id (some k) none = false
asks_id (some k) (some n) = n == k

module _ {ℓ} {A : Type ℓ} where
  abbrev pub drop : ℕ → List A → List A
  drop zero xs = xs
  drop (suc n) [] = []
  drop (suc n) (x ∷ xs) = drop n xs

  -- `ORDER BY … LIMIT … OFFSET …`
  abbrev pub page : (A → A → Bool) → (limit offset : ℕ) → List A → List A
  page before limit offset rows = take limit (drop offset (Table.order_by before rows))
