-- ===== src/Crawler/Writers.antt =====
-- The public methods of the writers of one context, called in any order.
use tender_phase.Prelude.{List, [], ◌∷◌}
use tender_phase.Clock.{Time}
use tender_phase.Crawler.Python.{Python}
use tender_phase.Crawler.Items.{Item}
use tender_phase.Crawler.Rows.{WriterContext}
use tender_phase.Crawler.Keys.{Keys}
use tender_phase.Crawler.Documents.{write_raw_document, write_error}
use tender_phase.Crawler.Notices.{write_notice}
use tender_phase.Crawler.Versions.{write_notice_version}
use tender_phase.Crawler.Attachments.{write_attachment}

pub data Write : Type 0 where
  raw_document : Time → Item → Write
  notice : Item → Write
  notice_version : Item → Write
  attachment : Item → Write
  error : Time → Time → Item → Write

module _ (python : Python) (keys : Keys) where
  unfoldable pub write : Write → WriterContext → WriterContext
  write (raw_document now i) c = (write_raw_document python keys now i c).1
  write (notice i) c = (write_notice python keys i c).1
  write (notice_version i) c = (write_notice_version python keys i c).1
  write (attachment i) c = (write_attachment python keys i c).1
  write (error now created_at i) c = (write_error python keys now created_at i c).1

  unfoldable pub write_all : List Write → WriterContext → WriterContext
  write_all [] c = c
  write_all (w ∷ ws) c = write_all ws (write w c)
