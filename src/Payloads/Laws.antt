-- ===== src/Payloads/Laws.antt =====
-- What `read_payload_int` finds in the payloads that the program builds.
use tender_phase.Prelude.{
  String, true, false, Option, none, some, [], ◌∷◌, str_eq, if◌then◌else◌, ◌≡◌, refl, ◌∙◌, ap,
  arith, eq_iff,
}
use tender_phase.Prelude.Integers.{ℤ}
use tender_phase.Prelude.Decimal.RoundTrip.{parse_int-print_int, strip-print_int}
use tender_phase.Payloads.{
  JsonValue, int, text, Payload, put, get, put_text, put_int, JobParams, build_job_params_payload,
  read_int, read_payload_int, str_of,
}

pub get-put :
    (k j : String) (v : JsonValue) (p : Payload)
    → get j (put k v p) ≡ (if str_eq k j then some v else get j p)
unfolding get put
get-put k j v [] = refl
get-put k j v ((i, w) ∷ p) = ground (arith, eq_iff k j, eq_iff i k, eq_iff i j, get-put k j v p)

pub get-put_ne :
    (k j : String) (v : JsonValue) (p : Payload) → str_eq k j ≡ false → get j (put k v p) ≡ get j p
get-put_ne k j v p h = get-put k j v p ∙ rw h

get-put_text_ne :
    (k j : String) (s : Option String) (p : Payload)
    → str_eq k j ≡ false
    → get j (put_text k s p) ≡ get j p
unfolding put_text
get-put_text_ne k j none p h = refl
get-put_text_ne k j (some s) p h = ground (arith, get-put_ne k j (text s) p h)

get-put_int_ne :
    (k j : String) (n : Option ℤ) (p : Payload)
    → str_eq k j ≡ false
    → get j (put_int k n p) ≡ get j p
unfolding put_int
get-put_int_ne k j none p h = refl
get-put_int_ne k j (some n) p h = get-put_ne k j (int n) p h

read_int-int : (n : ℤ) → read_int (some (int n)) ≡ some n
unfolding read_int str_of
read_int-int n = rw strip-print_int (parse_int-print_int n)

-- An optional number that was put under a key that was free is read back.
read_int-put_int :
    (k : String) (n : Option ℤ) (p : Payload)
    → str_eq k k ≡ true
    → get k p ≡ none
    → read_int (get k (put_int k n p)) ≡ n
unfolding put_int
read_int-put_int k none p h e = unfold read_int in rw e
read_int-put_int k (some n) p h e = rw (get-put, h) (read_int-int n)

-- Whatever the other arguments are, `max_pages`, `backfill_year` and `retry_of_job_id` are read
-- back as given.
pub read_payload_int-job_params :
    (a : JobParams)
    → (read_payload_int (some (build_job_params_payload a)) "max_pages" ≡ a.max_pages)
      × (read_payload_int (some (build_job_params_payload a)) "backfill_year" ≡ a.backfill_year)
      × (read_payload_int (some (build_job_params_payload a)) "retry_of_job_id" ≡ a.retry_of_job_id)
unfolding read_payload_int build_job_params_payload
read_payload_int-job_params a =
    let p0 : Payload = ("source_code", text a.source_code) ∷ ("job_type", text a.job_type) ∷ [] in
    let p1 = put_text "triggered_by" a.triggered_by p0 in
    let p2 = put_int "max_pages" a.max_pages p1 in
    let p3 = put_int "backfill_year" a.backfill_year p2 in
    let p4 = put_int "retry_of_job_id" a.retry_of_job_id p3 in
    (
      ap read_int (
            get-put_text_ne "spider_name" "max_pages" a.spider_name p4 refl
            ∙ get-put_int_ne "retry_of_job_id" "max_pages" a.retry_of_job_id p3 refl
            ∙ get-put_int_ne "backfill_year" "max_pages" a.backfill_year p2 refl)
          ∙ read_int-put_int "max_pages" a.max_pages p1 refl (
              get-put_text_ne "triggered_by" "max_pages" a.triggered_by p0 refl
              ∙ unfold get in refl),
      ap read_int (
            get-put_text_ne "spider_name" "backfill_year" a.spider_name p4 refl
            ∙ get-put_int_ne "retry_of_job_id" "backfill_year" a.retry_of_job_id p3 refl)
          ∙ read_int-put_int "backfill_year" a.backfill_year p2 refl (
              get-put_int_ne "max_pages" "backfill_year" a.max_pages p1 refl
              ∙ get-put_text_ne "triggered_by" "backfill_year" a.triggered_by p0 refl
              ∙ unfold get in refl),
      ap read_int (get-put_text_ne "spider_name" "retry_of_job_id" a.spider_name p4 refl)
          ∙ read_int-put_int "retry_of_job_id" a.retry_of_job_id p3 refl (
              get-put_int_ne "backfill_year" "retry_of_job_id" a.backfill_year p2 refl
              ∙ get-put_int_ne "max_pages" "retry_of_job_id" a.max_pages p1 refl
              ∙ get-put_text_ne "triggered_by" "retry_of_job_id" a.triggered_by p0 refl
              ∙ unfold get in refl),
    )
