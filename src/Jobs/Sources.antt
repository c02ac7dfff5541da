-- ===== src/Jobs/Sources.antt =====
-- `_ensure_source_site`: the source of a new job.
use tender_phase.Prelude.{
  suc, ◌≤◌, ◌<◌, true, false, String, Option, none, some, ◌≡◌, ◌≢◌, refl, ◌==◌, if◌then◌else◌,
  count, All, arith, ==_iff, Bool-cases, Option-cases, inl, inr, sym, ◌∙◌, or_else, str_eq, eq_iff,
}
use mathlib.Core.Path.{subst}
use tender_phase.Table.Fresh.{count-next_id, count_ids-insert, All-below-suc}
use tender_phase.Prelude.Text.{as_str}
use tender_phase.Adapters.{normalize_source_code}
use tender_phase.Model.{SourceSite, Database}
use tender_phase.Session.{Result, ok}
use tender_phase.Table
use tender_phase.Table.Laws.{count-update_where-le, All-update_where, count-insert, All-insert}
use tender_phase.Table.Order.{In}
use tender_phase.Table.Membership.{In-update_where, In-insert, count-update_where-le-add}
use tender_phase.Jobs.Creation.{
  has_code, find_source, source_id, new_source_id, new_source, set_code, adopt_code, add_source,
  found_or_added, ensure_source_site,
}
use tender_phase.Jobs.Invariant.{IsConsistent}
use tender_phase.Jobs.Found.{Found, find_source-Found, find_source-none, source_by_code_absent}

-- What the call leaves: the source of the job, whose code is the normalized one and no other's.
pub record Ensured (code : String) (db : Database) (s : SourceSite) (db' : Database) : Type 0 where
  pub has_it : s.code ≡ code
  pub listed : In s db'.sources
  pub consistent : IsConsistent db'
  pub same_jobs : db'.jobs ≡ db.jobs

-- A code that no source had is given to one source.
adopted_one_code :
    (code : String) (s : SourceSite) (db : Database)
    → IsConsistent db
    → count (has_code code) db.sources ≡ 0
    → (d : String)
    → count (has_code d) (Table.update_where (λ s'. s'.id == s.id) (set_code code) db.sources) ≤ 1
adopted_one_code code s db c free d = elim (Bool-cases (str_eq code d)) [
  | inl hit ↦
      let e : code ≡ d = (eq_iff code d).0 hit in
      let free_d = subst (λ n. count (has_code n) db.sources ≡ 0) e free in
      omega (
        arith,
        free_d,
        c.one_source_id s.id,
        count-update_where-le-add (has_code d) (λ s'. s'.id == s.id) (set_code code) db.sources,
      )
  | inr miss ↦ omega (
    arith,
    c.one_code d,
    count-update_where-le (has_code d) (λ s'. s'.id == s.id) (set_code code) (λ x hit h. cc)
        db.sources,
  )
]

adopt_code-Ensured :
    (code : String) (db : Database) (s : SourceSite)
    → IsConsistent db
    → Found code db.sources s
    → Ensured code db (adopt_code code db s).0 (adopt_code code db s).1
unfolding adopt_code
adopt_code-Ensured code db s c f = elim (Bool-cases (str_eq s.code code)) [
  | inl same ↦ rw same (record {
    has_it = (eq_iff s.code code).0 same;
    listed = f.row;
    consistent = c;
    same_jobs = refl;
  })
  | inr other ↦
      rw (other, source_by_code_absent code db.sources (f.only other))
        (record {
          has_it = refl;
          listed =
              In-update_where (λ s'. s'.id == s.id) (set_code code) f.row
                ((==_iff s.id s.id).1 refl);
          consistent = record {
            valid = c.valid;
            one_id = c.one_id;
            one_active = c.one_active;
            one_retry = c.one_retry;
            job_sequence = c.job_sequence;
            one_source_id = λ k. omega (
              arith,
              c.one_source_id k,
              count-update_where-le (λ s'. source_id s' == k) (λ s'. s'.id == s.id) (set_code code)
                  (λ x hit h. h) db.sources,
            );
            one_code = adopted_one_code code s db c (f.only other);
            source_sequence = λ server.
                All-update_where (λ s'. s'.id < db.next_source_id) (λ s'. s'.id == s.id)
                  (set_code code) (λ x h hit. h) db.sources (c.source_sequence server);
          };
          same_jobs = refl;
        })
]

pub new_source_id_free :
    (db : Database) → IsConsistent db → count (λ s. source_id s == new_source_id db) db.sources ≡ 0
unfolding new_source_id
new_source_id_free db c =
    count-next_id source_id db.is_sqlite db.next_source_id db.sources c.source_sequence

same_code_free :
    (code d : String) (db : Database)
    → count (has_code code) db.sources ≡ 0
    → str_eq code d ≡ true
    → count (has_code d) db.sources ≡ 0
same_code_free code d db free hit =
    subst (λ n. count (has_code n) db.sources ≡ 0) ((eq_iff code d).0 hit) free

added_below :
    (db : Database) (s : SourceSite)
    → IsConsistent db
    → s.id ≡ new_source_id db
    → db.is_sqlite ≡ false
    → All
        (λ x. x.id < (if db.is_sqlite then db.next_source_id else suc db.next_source_id))
        (Table.insert s db.sources)
unfolding new_source_id
added_below db s c new server = rw server (
    All-insert (λ x. x.id < suc db.next_source_id) s db.sources (ground arith)
      (All-below-suc source_id db.next_source_id db.sources (c.source_sequence server)))

-- A new source with its own id and a code that no source has keeps the tables consistent.
pub added-IsConsistent :
    (s : SourceSite) (db : Database)
    → IsConsistent db
    → s.id ≡ new_source_id db
    → count (has_code s.code) db.sources ≡ 0
    → IsConsistent (record db {
      sources = Table.insert s db.sources;
      next_source_id = if db.is_sqlite then db.next_source_id else suc db.next_source_id;
    })
added-IsConsistent s db c new free = record {
  valid = c.valid;
  one_id = c.one_id;
  one_active = c.one_active;
  one_retry = c.one_retry;
  job_sequence = c.job_sequence;
  one_source_id =
      count_ids-insert source_id s db.sources (rw new (new_source_id_free db c)) c.one_source_id;
  one_code = λ d. ground (
    arith,
    count-insert (has_code d) s db.sources,
    c.one_code d,
    same_code_free s.code d db free,
  );
  source_sequence = added_below db s c new;
}

add_source-Ensured :
    (code : String) (source_name source_url : Option String) (db : Database)
    → IsConsistent db
    → count (has_code code) db.sources ≡ 0
    → Ensured code db
        (add_source code source_name source_url db).0
        (add_source code source_name source_url db).1
unfolding add_source
add_source-Ensured code source_name source_url db c free = record {
  has_it = refl;
  listed = In-insert (new_source (new_source_id db) code source_name source_url) db.sources;
  consistent =
      added-IsConsistent (new_source (new_source_id db) code source_name source_url) db c refl free;
  same_jobs = refl;
}

found_or_added-Ensured :
    (code : String) (source_name source_url : Option String) (db : Database) (o : Option SourceSite)
    (raw : String)
    → IsConsistent db
    → find_source raw code db.sources ≡ o
    → Ensured code db
        (found_or_added code source_name source_url db o).0
        (found_or_added code source_name source_url db o).1
unfolding found_or_added
found_or_added-Ensured code source_name source_url db none raw c e =
    add_source-Ensured code source_name source_url db c (find_source-none raw code db.sources e)
found_or_added-Ensured code source_name source_url db (some s) raw c e =
    adopt_code-Ensured code db s c (find_source-Found raw code db.sources s e)

-- The source code that a request stands for.
abbrev pub resolved_code : String → String
resolved_code source_code = normalize_source_code (or_else (as_str (some source_code)) "")

-- With consistent tables, the source that the call returns has the normalized code and is in the
-- table; the tables stay consistent, so that no other source has that code, and the jobs are as
-- they were. (`Ensured` has these four parts.) The call raises only for a blank code.
pub ensure_source_site-Ensured :
    (source_code : String) (source_name source_url : Option String) (db : Database)
    → IsConsistent db
    → (as_str (some source_code) ≢ none)
    → (s : SourceSite) × (db' : Database) × (ensure_source_site source_code source_name source_url
          db
        ≡ ok (s, db'))
      × Ensured (resolved_code source_code) db s db'
ensure_source_site-Ensured source_code source_name source_url db c text =
    elim (Option-cases (as_str (some source_code))) [
      | inl blank ↦ absurd (text blank)
      | inr (raw, e) ↦
          let code = normalize_source_code raw in
          let found = find_source raw code db.sources in
          let r = found_or_added code source_name source_url db found in
          (
            r.0,
            r.1,
            unfold ensure_source_site in rw (e, ensure_source_site),
            rw e (found_or_added-Ensured code source_name source_url db found raw c refl),
          )
    ]

ok-injective : {A : Type 0} (a b : A) → ◌≡◌ {A = Result A} (ok a) (ok b) → a ≡ b
ok-injective a b h = cc

-- The same, read from a call that returned.
pub Ensured-of_ok :
    (source_code : String) (source_name source_url : Option String) (db : Database)
    (p : SourceSite × Database)
    → IsConsistent db
    → ensure_source_site source_code source_name source_url db ≡ ok p
    → Ensured (resolved_code source_code) db p.0 p.1
Ensured-of_ok source_code source_name source_url db p c h =
    elim (Option-cases (as_str (some source_code))) [
      | inl blank ↦ absurd (unfold ensure_source_site in cc)
      | inr (raw, e) ↦
          let found = find_source raw (normalize_source_code raw) db.sources in
          let r = found_or_added (normalize_source_code raw) source_name source_url db found in
          let here : ensure_source_site source_code source_name source_url db ≡ ok r =
            unfold ensure_source_site in rw (e, ensure_source_site) in
          subst (λ q. Ensured (resolved_code source_code) db q.0 q.1)
            (ok-injective r p (sym here ∙ h))
            (rw e (
              found_or_added-Ensured (normalize_source_code raw) source_name source_url db found raw
                c refl))
    ]
