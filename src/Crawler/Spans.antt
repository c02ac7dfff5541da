-- ===== src/Crawler/Spans.antt =====
-- The dates of a notice stay in order.
use tender_phase.Prelude.{Option, none, some, arith, Bool-cases, inl, inr}
use tender_phase.Clock.{Time}
use tender_phase.Crawler.Python.{Python}
use tender_phase.Crawler.Items.{Item, value_of, as_datetime}
use tender_phase.Crawler.Rows.{TenderNotice, NoticeVersion}
use tender_phase.Crawler.Keys.{Keys}
use tender_phase.Crawler.NoticeFields.{
  earlier, later, widen, set_published, apply_texts, apply_notice_fields,
}
use tender_phase.Crawler.Versions.{point_to}
use tender_phase.Crawler.Invariant.{Span, InSpan}

pub Span-same : (t : Option Time) → Span t t t
Span-same none = tt
Span-same (some t) = omega arith

Span-widened :
    (f l : Option Time) (t : Time) → Span (some t) (some (earlier f t)) (some (later l t))
Span-widened none none t = omega arith
Span-widened none (some l) t = ground arith
Span-widened (some f) none t = ground arith
Span-widened (some f) (some l) t = ground arith

pub set_published-InSpan :
    (t : Option Time) (n : TenderNotice) → InSpan n → InSpan (set_published t n)
unfolding set_published widen
set_published-InSpan none n h = h
set_published-InSpan (some t) n h = Span-widened n.first_published_at n.latest_published_at t

-- The version's time is the one that the notice has just been given.
widen_set-InSpan :
    (t : Option Time) (v : NoticeVersion) (n : TenderNotice)
    → InSpan n
    → InSpan (widen t (point_to v (set_published t n)))
unfolding set_published widen
widen_set-InSpan none v n h = elim (Bool-cases v.is_current) [
  | inl now ↦ rw now h
  | inr past ↦ rw past h
]
widen_set-InSpan (some t) v n h = elim (Bool-cases v.is_current) [
  | inl now ↦ rw now (
      Span-widened (some (earlier n.first_published_at t)) (some (later n.latest_published_at t)) t)
  | inr past ↦ rw past (
      Span-widened (some (earlier n.first_published_at t)) (some (later n.latest_published_at t)) t)
]

module _ (python : Python) (keys : Keys) (i : Item) (n : TenderNotice) (h : InSpan n) where
  pub apply-InSpan : InSpan (apply_notice_fields python keys i n)
  unfolding apply_notice_fields
  apply-InSpan =
      set_published-InSpan (as_datetime python (value_of "published_at" i))
        (apply_texts python keys i n) h

  pub widen-apply-InSpan :
      (v : NoticeVersion)
      → InSpan (
          widen
            (as_datetime python (value_of "published_at" i))
            (point_to v (apply_notice_fields python keys i n)))
  unfolding apply_notice_fields
  widen-apply-InSpan v =
      widen_set-InSpan (as_datetime python (value_of "published_at" i)) v
        (apply_texts python keys i n) h
