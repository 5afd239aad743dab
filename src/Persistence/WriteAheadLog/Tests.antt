-- ===== src/Persistence/WriteAheadLog/Tests.antt =====
-- Runs of src/persistence/write-ahead-log.ts.
use sync_engine.Base.{
  ◌≡◌, refl, none, some, List, [], ◌∷◌, arith, filter, str_eq, eq_iff, All, ◌==◌, if◌then◌else◌,
}
use sync_engine.Persistence.WriteAheadLog.{
  WalEntry, WriteAheadLog, Json, create, start, read_lines, after, replay, truncate, delta,
  checkpoint,
}
use sync_engine.Persistence.WriteAheadLog.Appending.{
  Item, append_all, numbered, AreFresh, IsReadable,
}
use sync_engine.Persistence.WriteAheadLog.Replay.{replay-append_all}
use sync_engine.Persistence.WriteAheadLog.Truncate.{AreOrdered, replay-truncate}

abbrev first : WalEntry
first = record { sequence = 1; timestamp = 5; type = delta; data_ = "hit" }

abbrev second : WalEntry
second = record { sequence = 2; timestamp = 6; type = checkpoint; data_ = "v1" }

-- Lines of ten bytes, of which two are entries.
abbrev json : Json
json = record {
  print = λ e. if e.sequence == 1 then "one" else "two";
  parse = λ line.
      if str_eq line "one" then some first else (if str_eq line "two" then some second else none);
  bytes = λ line. 10;
}

abbrev items : List Item
items =
    record { type = delta; contents = "hit"; now = 5; name = "wal-2" }
    ∷ record { type = checkpoint; contents = "v1"; now = 6; name = "wal-3" }
    ∷ []

items-AreFresh : AreFresh ("wal-1" ∷ []) items
items-AreFresh =
    ground (arith, eq_iff "wal-2" "wal-1", eq_iff "wal-3" "wal-2", eq_iff "wal-3" "wal-1")

items-IsReadable : All (IsReadable json) (numbered 0 items)
items-IsReadable = (refl, (refl, tt))

-- A file has room for one line, so the second entry goes to a second file.
replay-append_all_example :
    replay json (append_all json (start (create [] 15) "wal-1") items) 1
    ≡ filter (after 1) (numbered 0 items)
replay-append_all_example =
    replay-append_all json 15 "wal-1" items 1 items-AreFresh items-IsReadable

abbrev stored : WriteAheadLog
stored = record (create [] 15) {
  files = ("wal-1", "one" ∷ []) ∷ ("wal-3", "broken" ∷ "two" ∷ []) ∷ [];
  current_file = "wal-3";
}

stored-AreOrdered : AreOrdered json stored.files
unfolding read_lines
stored-AreOrdered = ((omega arith, tt), ((omega arith, tt), tt))

replay-truncate_example : replay json (truncate json stored 2) 1 ≡ replay json stored 1
replay-truncate_example = replay-truncate json stored 2 1 stored-AreOrdered (omega arith)
