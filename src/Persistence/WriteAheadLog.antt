-- ===== src/Persistence/WriteAheadLog.antt =====
-- `WriteAheadLog` of src/persistence/write-ahead-log.ts. The directory is a map from the names of the log
-- files to their lines: a write is there at once, no file fails to open, and a name made later sorts
-- after the earlier ones. The text of an entry and its size are parameters, and the clock and the next
-- name of a file are arguments.
pub mod Appending
pub mod Replay
pub mod Truncate
mod Tests
use sync_engine.Base.{
  ℕ, ◌+◌, String, Bool, true, false, Option, none, some, List, [], ◌∷◌, ◌++◌, ltb, or_else, str_eq,
  filter, if◌then◌else◌,
}
use sync_engine.Base.Map
use sync_engine.Base.Map.{Map}
use sync_engine.Base.Sort

pub data EntryType : Type 0 where
  delta snapshot checkpoint : EntryType

pub record WalEntry : Type 0 where
  pub sequence : ℕ
  pub timestamp : ℕ
  pub type : EntryType
  pub data_ : String

pub record WriteAheadLog : Type 0 where
  pub files : Map (List String)
  pub current_file : String
  pub sequence : ℕ
  pub streaming : Bool
  pub max_file_size : ℕ
  pub current_file_size : ℕ
  pub entries_written : ℕ

-- `JSON.stringify` of an entry, `JSON.parse` of a line (`none` if it throws), and the bytes of a line with its
-- end.
pub record Json : Type 0 where
  pub print : WalEntry → String
  pub parse : String → Option WalEntry
  pub bytes : String → ℕ

unfoldable pub create : Map (List String) → ℕ → WriteAheadLog
create files max_file_size = record {
  files = files;
  current_file = "";
  sequence = 0;
  streaming = false;
  max_file_size = max_file_size;
  current_file_size = 0;
  entries_written = 0;
}

-- `openWriteStream` for appending: a file that is not there is made.
unfoldable pub open_write_stream : WriteAheadLog → String → WriteAheadLog
open_write_stream s name = record s {
  files = Map.set s.files name (or_else (Map.get s.files name) []);
  current_file = name;
  streaming = true;
}

unfoldable pub start : WriteAheadLog → String → WriteAheadLog
unfolding open_write_stream
start s name = open_write_stream s name

abbrev pub stop : WriteAheadLog → WriteAheadLog
stop s = record s { streaming = false }

unfoldable pub rotate_file : WriteAheadLog → String → WriteAheadLog
unfolding open_write_stream
rotate_file s name = record (open_write_stream s name) { current_file_size = 0 }

unfoldable pub write_line : Json → WriteAheadLog → String → WriteAheadLog
write_line j s line =
    if s.streaming
    then record s {
      files =
          Map.set s.files s.current_file (or_else (Map.get s.files s.current_file) [] ++ line ∷ []);
      current_file_size = s.current_file_size + j.bytes line;
      entries_written = s.entries_written + 1;
    }
    else s

abbrev pub entry_of : WriteAheadLog → EntryType → String → ℕ → WalEntry
entry_of s type contents now = record {
  sequence = s.sequence + 1;
  timestamp = now;
  type = type;
  data_ = contents;
}

-- `append` of a value's text. The last argument is the name of a file that it may have to start.
unfoldable pub append : Json → WriteAheadLog → EntryType → String → ℕ → String → WriteAheadLog × ℕ
unfolding rotate_file write_line
append j s type contents now name =
    let line = j.print (entry_of s type contents now) in
    let s₁ : WriteAheadLog = record s { sequence = s.sequence + 1 } in
    let s₂ =
      if ltb s.max_file_size (s.current_file_size + j.bytes line)
      then rotate_file s₁ name
      else s₁ in
    (write_line j s₂ line, s.sequence + 1)

-- The entries of the lines that can be read.
unfoldable pub read_lines : Json → List String → List WalEntry
read_lines j [] = []
read_lines j (line ∷ lines) =
    let rest = read_lines j lines in elim (j.parse line) [ none ↦ rest | some e ↦ e ∷ rest ]

unfoldable pub read_files : Json → Map (List String) → List WalEntry
unfolding read_lines
read_files j [] = []
read_files j ((name, lines) ∷ files) = read_lines j lines ++ read_files j files

abbrev pub after : ℕ → WalEntry → Bool
after from e = ltb from e.sequence

unfoldable pub replay : Json → WriteAheadLog → ℕ → List WalEntry
unfolding read_files
replay j s from =
    Sort.sort (λ (e : WalEntry). e.sequence) (filter (after from) (read_files j s.files))

abbrev pub last_line : List String → Option String
last_line [] = none
last_line (l ∷ []) = some l
last_line (l ∷ m ∷ ls) = last_line (m ∷ ls)

-- The entry of the last line, if there is one that can be read.
abbrev pub last_entry : Json → List String → Option WalEntry
last_entry j lines = elim (last_line lines) [ none ↦ none | some l ↦ j.parse l ]

abbrev pub is_old : Json → ℕ → List String → Bool
is_old j before lines = elim (last_entry j lines) [ none ↦ false | some e ↦ ltb e.sequence before ]

unfoldable pub truncate_files : Json → String → ℕ → Map (List String) → Map (List String)
truncate_files j current before [] = []
truncate_files j current before ((name, lines) ∷ files) =
    let rest = truncate_files j current before files in
    if str_eq name current
    then (name, lines) ∷ rest
    else (if is_old j before lines then rest else (name, lines) ∷ rest)

unfoldable pub truncate : Json → WriteAheadLog → ℕ → WriteAheadLog
unfolding truncate_files
truncate j s before = record s { files = truncate_files j s.current_file before s.files }

-- `getStats`
abbrev pub get_stats : WriteAheadLog → ℕ × ℕ × ℕ
get_stats s = (s.entries_written, s.sequence, s.current_file_size)
