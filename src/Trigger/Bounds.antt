-- ===== src/Trigger/Bounds.antt =====
-- The arguments of a crawl, as text and read back.
use tender_phase.Prelude.{
  ℕ, String, Bool, true, not, Option, none, some, [], ◌∷◌, ◌++◌ as append, ◌≡◌, refl, ap, ◌∙◌,
  arith,
}
use tender_phase.Prelude.Integers.{ℤ, pos, less}
use tender_phase.Prelude.Text.{strip}
use tender_phase.Prelude.Decimal.{print_int, parse_int}
use tender_phase.Prelude.Decimal.RoundTrip.{parse_int-print_int, strip-print_int}
use tender_phase.Prelude.Outcome.{returns, raises}
use tender_phase.Trigger.Checks.{Checked, max_pages_too_small, backfill_year_too_small}
use tender_phase.Trigger.Arguments.{SpiderArgs, bounded_arg, build_spider_args, spider_int}

-- An argument that is absent or at least some number.
abbrev pub is_allowed : ℕ → Option ℤ → Bool
is_allowed least none = true
is_allowed least (some n) = not (less n (pos least))

abbrev entry : String → Option ℤ → SpiderArgs
entry key none = []
entry key (some n) = (key, print_int n) ∷ []

read_printed : (n : ℤ) → parse_int (strip (print_int n)) ≡ some n
read_printed n = ap parse_int (strip-print_int n) ∙ parse_int-print_int n

read_pages :
    (p y : Option ℤ) (t : String)
    → spider_int
        (append (entry "max_pages" p) (append (entry "backfill_year" y) (("job_type", t) ∷ [])))
        "max_pages"
      ≡ p
unfolding spider_int
read_pages none none t = refl
read_pages none (some m) t = refl
read_pages (some n) y t = read_printed n

read_year :
    (p y : Option ℤ) (t : String)
    → spider_int
        (append (entry "max_pages" p) (append (entry "backfill_year" y) (("job_type", t) ∷ [])))
        "backfill_year"
      ≡ y
unfolding spider_int
read_year none none t = refl
read_year none (some m) t = read_printed m
read_year (some n) none t = refl
read_year (some n) (some m) t = read_printed m

bounded :
    (key : String) (least : ℕ) (too_small : Checked SpiderArgs) (o : Option ℤ)
    → is_allowed least o ≡ true
    → bounded_arg key least too_small o ≡ returns (entry key o)
bounded key least too_small none h = refl
bounded key least too_small (some n) h = ground arith

built :
    (p y : Option ℤ) (t : String)
    → is_allowed 1 p ≡ true
    → is_allowed 2000 y ≡ true
    → build_spider_args p y t
      ≡ returns
          (append (entry "max_pages" p) (append (entry "backfill_year" y) (("job_type", t) ∷ [])))
unfolding build_spider_args
built p y t hp hy = rw (
  bounded "max_pages" 1 (raises max_pages_too_small) p hp,
  bounded "backfill_year" 2000 (raises backfill_year_too_small) y hy,
)

-- With at least one page, if a number of pages is given, and a year from 2000 on, if one is given,
-- the arguments are built, and both numbers are read from them as they were given.
pub spider_int-build_spider_args :
    (p y : Option ℤ) (t : String)
    → is_allowed 1 p ≡ true
    → is_allowed 2000 y ≡ true
    → (args : SpiderArgs) × (build_spider_args p y t ≡ returns args)
      × (spider_int args "max_pages" ≡ p)
      × (spider_int args "backfill_year" ≡ y)
spider_int-build_spider_args p y t hp hy = (
  append (entry "max_pages" p) (append (entry "backfill_year" y) (("job_type", t) ∷ [])),
  built p y t hp hy,
  read_pages p y t,
  read_year p y t,
)
