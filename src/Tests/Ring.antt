-- ===== src/Tests/Ring.antt =====
-- The theorems on the journal's ring at concrete journals.
use fsyncer.Base.{some, Outcome, ◌+◌, ◌≡◌, [], ◌∷◌}
use fsyncer.Host.{JournalType}
use fsyncer.Store.{Journal, JournalHeader, block_size}
use fsyncer.Store.Recovery.{open_journal, IsOpened, open_journal-IsOpened}

abbrev a_header : JournalHeader
a_header = record { tail = 4; head = 0; trans_ctr = 7; ty = JournalType.forward }

open_journal-IsOpened_example :
    (r : Outcome Journal) × ((open_journal
          (block_size + 2)
          JournalType.forward
          a_header
          131072
          (1 ∷ 2 ∷ [])
          5
        ≡ some r)
      × IsOpened a_header r)
open_journal-IsOpened_example =
    open_journal-IsOpened JournalType.forward a_header 131072 (1 ∷ 2 ∷ []) 5
