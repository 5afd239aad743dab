-- ===== src/Persistence/WriteAheadLog/Appending.antt =====
-- What the calls of `append` of src/persistence/write-ahead-log.ts leave in the files.
use mathlib.Core.List.{append_assoc, append-nil}
use sync_engine.Base.{
  ℕ, ◌+◌, ◌≡◌, refl, sym, ap, subst, ◌∙◌, inl, inr, String, true, false, none, some, List, [], ◌∷◌,
  ◌++◌, arith, ltb, All, any, str_eq, eq_iff, Option-cases, Bool-cases,
}
use sync_engine.Base.Map
use sync_engine.Base.Map.{Map}
use sync_engine.Base.Map.Laws.{get-set}
use sync_engine.Persistence.WriteAheadLog.{
  WalEntry, EntryType, WriteAheadLog, Json, open_write_stream, rotate_file, write_line, entry_of,
  append, read_lines, read_files,
}

-- One call of `append`, with its time and the name of a file that it may start.
pub record Item : Type 0 where
  pub type : EntryType
  pub contents : String
  pub now : ℕ
  pub name : String

unfoldable pub append_all : Json → WriteAheadLog → List Item → WriteAheadLog
unfolding append
append_all j s [] = s
append_all j s (x ∷ xs) = append_all j (append j s x.type x.contents x.now x.name).0 xs

-- The entries of the calls, numbered on from a number.
abbrev pub numbered : ℕ → List Item → List WalEntry
numbered n [] = []
numbered n (x ∷ xs) =
    record { sequence = n + 1; timestamp = x.now; type = x.type; data_ = x.contents }
    ∷ numbered (n + 1) xs

-- No name is one of the names seen before.
abbrev pub AreFresh : List String → List Item → Type 0
AreFresh seen [] = Unit
AreFresh seen (x ∷ xs) = (any (str_eq x.name) seen ≡ false) × AreFresh (x.name ∷ seen) xs

-- The line of the entry can be read as that entry.
abbrev pub IsReadable : Json → WalEntry → Type 0
IsReadable j e = j.parse (j.print e) ≡ some e

abbrev Files : Type 0
Files = Map (List String)

set_fresh :
    (m : Files) (k : String) (v : List String)
    → Map.get m k ≡ none
    → Map.set m k v ≡ m ++ (k, v) ∷ []
unfolding Map.get Map.set
set_fresh [] k v h = refl
set_fresh ((i, w) ∷ m) k v h = ground (arith, set_fresh m k v, h)

set_last :
    (m : Files) (k : String) (v w : List String)
    → Map.get m k ≡ none
    → Map.set (m ++ (k, v) ∷ []) k w ≡ m ++ (k, w) ∷ []
unfolding Map.get Map.set
set_last [] k v w h = ground (arith, eq_iff k k)
set_last ((i, u) ∷ m) k v w h = ground (arith, set_last m k v w, h)

get_last :
    (m : Files) (k : String) (v : List String)
    → Map.get m k ≡ none
    → Map.get (m ++ (k, v) ∷ []) k ≡ some v
unfolding Map.get
get_last [] k v h = ground (arith, eq_iff k k)
get_last ((i, u) ∷ m) k v h = ground (arith, get_last m k v, h)

read_lines-append :
    (j : Json) (ls ms : List String) → read_lines j (ls ++ ms) ≡ read_lines j ls ++ read_lines j ms
unfolding read_lines
read_lines-append j [] ms = refl
read_lines-append j (l ∷ ls) ms = elim (Option-cases (j.parse l)) [
  | inl e ↦ rw (e, read_lines) (read_lines-append j ls ms)
  | inr (x, e) ↦ rw (e, read_lines) (ap (λ es. x ∷ es) (read_lines-append j ls ms))
]

read_files-append :
    (j : Json) (m n : Files) → read_files j (m ++ n) ≡ read_files j m ++ read_files j n
unfolding read_files
read_files-append j [] n = refl
read_files-append j ((k, ls) ∷ m) n =
    ap (λ es. read_lines j ls ++ es) (read_files-append j m n)
    ∙ sym (append_assoc (read_lines j ls) (read_files j m) (read_files j n))

read_one : (j : Json) (e : WalEntry) → IsReadable j e → read_lines j (j.print e ∷ []) ≡ e ∷ []
unfolding read_lines
read_one j e h = rw (h, read_lines) refl

-- The stream writes to the last file of the directory.
pub record IsOpen (s : WriteAheadLog) (seen : List String) : Type 0 where
  pub earlier : Files
  pub lines : List String
  pub files_are : s.files ≡ earlier ++ (s.current_file, lines) ∷ []
  pub absent : Map.get earlier s.current_file ≡ none
  pub streaming : s.streaming ≡ true
  pub unseen : (k : String) → any (str_eq k) seen ≡ false → Map.get s.files k ≡ none

-- A line more in the last file.
read_more :
    (j : Json) (m : Files) (k : String) (lines : List String) (e : WalEntry)
    → IsReadable j e
    → read_files j (m ++ (k, lines ++ j.print e ∷ []) ∷ [])
      ≡ read_files j (m ++ (k, lines) ∷ []) ++ e ∷ []
unfolding read_files
read_more j [] k lines e h =
    let old = read_lines j lines in
    append-nil (read_lines j (lines ++ j.print e ∷ []))
    ∙ read_lines-append j lines (j.print e ∷ [])
    ∙ ap (λ es. old ++ es) (read_one j e h)
    ∙ sym (ap (λ es. es ++ e ∷ []) (append-nil old))
read_more j ((i, ls) ∷ m) k lines e h =
    ap (λ es. read_lines j ls ++ es) (read_more j m k lines e h)
    ∙ sym (append_assoc (read_lines j ls) (read_files j (m ++ (k, lines) ∷ [])) (e ∷ []))

-- The files after a write, and what they hold.
write_line-IsOpen :
    (j : Json) (s : WriteAheadLog) (seen : List String) (e : WalEntry)
    → IsOpen s seen
    → IsReadable j e
    → let s' = write_line j s (j.print e) in
      IsOpen s' seen × (read_files j s'.files ≡ read_files j s.files ++ e ∷ [])
unfolding write_line
write_line-IsOpen j s seen e v h =
    let line = j.print e in
    let k = s.current_file in
    let there : Map.get s.files k ≡ some v.lines =
      ap (λ (m : Files). Map.get m k) v.files_are ∙ get_last v.earlier k v.lines v.absent in
    let files' : Map.set s.files k (v.lines ++ line ∷ [])
        ≡ v.earlier ++ (k, v.lines ++ line ∷ []) ∷ [] =
      ap (λ (m : Files). Map.set m k (v.lines ++ line ∷ [])) v.files_are
      ∙ set_last v.earlier k v.lines (v.lines ++ line ∷ []) v.absent in
    rw (v.streaming, there)
      (
        record {
          earlier = v.earlier;
          lines = v.lines ++ line ∷ [];
          files_are = files';
          absent = v.absent;
          streaming = refl;
          unseen = λ i u.
              ground (
                arith,
                get-set s.files k i (v.lines ++ line ∷ []),
                eq_iff k i,
                v.unseen i u,
                there,
              );
        },
        ap (read_files j) files'
            ∙ read_more j v.earlier k v.lines e h
            ∙ ap (λ m. read_files j m ++ e ∷ []) (sym v.files_are),
      )

rotate_file-IsOpen :
    (j : Json) (s : WriteAheadLog) (seen : List String) (name : String)
    → IsOpen s seen
    → any (str_eq name) seen ≡ false
    → let s' = rotate_file s name in
      IsOpen s' (name ∷ seen) × (read_files j s'.files ≡ read_files j s.files)
unfolding rotate_file open_write_stream read_files read_lines
rotate_file-IsOpen j s seen name v new =
    let none_there = v.unseen name new in
    let files' : Map.set s.files name [] ≡ s.files ++ (name, []) ∷ [] =
      set_fresh s.files name [] none_there in
    rw (none_there, rotate_file, open_write_stream)
      (
        record {
          earlier = s.files;
          lines = [];
          files_are = files';
          absent = none_there;
          streaming = refl;
          unseen = λ i u.
              ground (arith, get-set s.files name i [], eq_iff name i, eq_iff i name, v.unseen i);
        },
        ap (read_files j) files'
            ∙ read_files-append j s.files ((name, []) ∷ [])
            ∙ append-nil (read_files j s.files),
      )

IsOpen-more :
    (s : WriteAheadLog) (n : ℕ) (seen : List String) (name : String)
    → IsOpen s seen
    → IsOpen (record s { sequence = n }) (name ∷ seen)
IsOpen-more s n seen name v = record {
  earlier = v.earlier;
  lines = v.lines;
  files_are = v.files_are;
  absent = v.absent;
  streaming = v.streaming;
  unseen = λ k u. v.unseen k (ground arith);
}

IsOpen-sequence :
    (s : WriteAheadLog) (n : ℕ) (seen : List String)
    → IsOpen s seen
    → IsOpen (record s { sequence = n }) seen
IsOpen-sequence s n seen v = record {
  earlier = v.earlier;
  lines = v.lines;
  files_are = v.files_are;
  absent = v.absent;
  streaming = v.streaming;
  unseen = v.unseen;
}

append-IsOpen :
    (j : Json) (s : WriteAheadLog) (seen : List String) (x : Item)
    → IsOpen s seen
    → any (str_eq x.name) seen ≡ false
    → IsReadable j (entry_of s x.type x.contents x.now)
    → let s' = (append j s x.type x.contents x.now x.name).0 in
      IsOpen s' (x.name ∷ seen)
      × (read_files j s'.files ≡ read_files j s.files ++ entry_of s x.type x.contents x.now ∷ [])
      × (s'.sequence ≡ s.sequence + 1)
unfolding append write_line rotate_file open_write_stream
append-IsOpen j s seen x v new h =
    let e = entry_of s x.type x.contents x.now in
    let s₁ : WriteAheadLog = record s { sequence = s.sequence + 1 } in
    elim (Bool-cases (ltb s.max_file_size (s.current_file_size + j.bytes (j.print e)))) [
      | inl t ↦
          let (rotated, same) =
            rotate_file-IsOpen j s₁ seen x.name (IsOpen-sequence s (s.sequence + 1) seen v) new in
          let (open_, read) =
            write_line-IsOpen j (rotate_file s₁ x.name) (x.name ∷ seen) e rotated h in
          rw (t, append) (open_, read ∙ ap (λ es. es ++ e ∷ []) same, ground arith)
      | inr t ↦
          let (open_, read) =
            write_line-IsOpen j s₁ (x.name ∷ seen) e (IsOpen-more s (s.sequence + 1) seen x.name v)
              h in
          rw (t, append) (open_, read, ground arith)
    ]

pub read_files-append_all :
    (j : Json) (s : WriteAheadLog) (seen : List String) (xs : List Item)
    → IsOpen s seen
    → AreFresh seen xs
    → All (IsReadable j) (numbered s.sequence xs)
    → read_files j (append_all j s xs).files ≡ read_files j s.files ++ numbered s.sequence xs
unfolding append_all
read_files-append_all j s seen [] v f a = sym (append-nil (read_files j s.files))
read_files-append_all j s seen (x ∷ xs) v f a =
    let s' = (append j s x.type x.contents x.now x.name).0 in
    let (open_, read, next) = append-IsOpen j s seen x v f.0 a.0 in
    let later =
      read_files-append_all j s' (x.name ∷ seen) xs open_ f.1
        (subst (λ n. All (IsReadable j) (numbered n xs)) (sym next) a.1) in
    later
    ∙ ap (λ n. read_files j s'.files ++ numbered n xs) next
    ∙ ap (λ es. es ++ numbered (s.sequence + 1) xs) read
    ∙ append_assoc (read_files j s.files) (entry_of s x.type x.contents x.now ∷ [])
        (numbered (s.sequence + 1) xs)
