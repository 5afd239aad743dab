-- ===== src/Persistence/WriteAheadLog/Replay.antt =====
-- A replay of the log of src/persistence/write-ahead-log.ts gives back what was appended.
use sync_engine.Base.{
  ℕ, ◌+◌, ◌≤◌, ◌≡◌, refl, ap, ◌∙◌, inl, inr, String, Bool, List, [], ◌∷◌, arith, filter, All,
  eq_iff, Bool-cases,
}
use sync_engine.Base.Map
use sync_engine.Base.Map.{Map}
use sync_engine.Base.Sort
use sync_engine.Persistence.WriteAheadLog.{
  WalEntry, Json, create, start, open_write_stream, read_lines, read_files, after, replay,
}
use sync_engine.Persistence.WriteAheadLog.Appending.{
  Item, append_all, numbered, AreFresh, IsReadable, IsOpen, read_files-append_all,
}

abbrev number_of : WalEntry → ℕ
number_of e = e.sequence

All-filter :
    (p : WalEntry → Bool) (n : ℕ) (es : List WalEntry)
    → All (λ (e : WalEntry). n ≤ e.sequence) es
    → All (λ (e : WalEntry). n ≤ e.sequence) (filter p es)
All-filter p n [] a = tt
All-filter p n (e ∷ es) a = ground (arith, All-filter p n es a.1, a.0)

insert_least :
    (e : WalEntry) (es : List WalEntry)
    → All (λ (d : WalEntry). e.sequence ≤ d.sequence) es
    → Sort.insert number_of e es ≡ e ∷ es
unfolding Sort.insert
insert_least e [] a = refl
insert_least e (d ∷ es) a = ground (arith, a.0)

sort-filter :
    (p : WalEntry → Bool) (es : List WalEntry)
    → Sort.IsSorted number_of es
    → Sort.sort number_of (filter p es) ≡ filter p es
unfolding Sort.sort
sort-filter p [] a = refl
sort-filter p (e ∷ es) a = elim (Bool-cases (p e)) [
  | inl t ↦ rw t (
      ap (Sort.insert number_of e) (sort-filter p es a.1)
      ∙ insert_least e (filter p es) (All-filter p e.sequence es a.0))
  | inr t ↦ rw t (sort-filter p es a.1)
]

numbered-later :
    (m n : ℕ) (xs : List Item) → m ≤ n + 1 → All (λ (e : WalEntry). m ≤ e.sequence) (numbered n xs)
numbered-later m n [] le = tt
numbered-later m n (x ∷ xs) le = (le, numbered-later m (n + 1) xs (omega (arith, le)))

numbered-IsSorted : (n : ℕ) (xs : List Item) → Sort.IsSorted number_of (numbered n xs)
numbered-IsSorted n [] = tt
numbered-IsSorted n (x ∷ xs) =
    (numbered-later (n + 1) (n + 1) xs (omega arith), numbered-IsSorted (n + 1) xs)

start-IsOpen : (max : ℕ) (name : String) → IsOpen (start (create [] max) name) (name ∷ [])
unfolding start open_write_stream create Map.get Map.set
start-IsOpen max name = record {
  earlier = [];
  lines = [];
  files_are = refl;
  absent = refl;
  streaming = refl;
  unseen = λ k u. ground (arith, eq_iff name k, eq_iff k name);
}

-- A log that is started in an empty directory, where each file it starts has a name of its own and each
-- line can be read as the entry that it is the text of: whenever it changes to a new file, a replay
-- gives back the entries that were appended after the number asked for, each once, in their order and
-- numbered from 1.
pub replay-append_all :
    (j : Json) (max : ℕ) (name : String) (xs : List Item) (from : ℕ)
    → AreFresh (name ∷ []) xs
    → All (IsReadable j) (numbered 0 xs)
    → replay j (append_all j (start (create [] max) name) xs) from
      ≡ filter (after from) (numbered 0 xs)
unfolding replay start open_write_stream create read_files read_lines Map.get Map.set
replay-append_all j max name xs from f a =
    let s = start (create [] max) name in
    ap (λ es. Sort.sort number_of (filter (after from) es))
      (read_files-append_all j s (name ∷ []) xs (start-IsOpen max name) f a)
    ∙ sort-filter (after from) (numbered 0 xs) (numbered-IsSorted 0 xs)
