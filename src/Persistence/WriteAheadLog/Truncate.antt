-- ===== src/Persistence/WriteAheadLog/Truncate.antt =====
-- What a truncation of the log of src/persistence/write-ahead-log.ts may lose.
use sync_engine.Base.{
  ℕ, ◌+◌, ◌≤◌, ◌≡◌, refl, sym, ap, subst, ◌∙◌, inl, inr, String, Bool, true, false, Option, none,
  some, List, [], ◌∷◌, ◌++◌, arith, ltb, filter, All, str_eq, Option-cases, Bool-cases,
}
use sync_engine.Base.Map.{Map}
use sync_engine.Base.Sort
use sync_engine.Persistence.WriteAheadLog.{
  WalEntry, WriteAheadLog, Json, read_lines, read_files, after, replay, last_entry, is_old,
  truncate_files, truncate,
}

-- No entry of the file comes after the one of its last line, if that one can be read.
abbrev EndsLast : Json → List String → Option WalEntry → Type 0
EndsLast j lines none = Unit
EndsLast j lines (some last) =
    All (λ (e : WalEntry). e.sequence ≤ last.sequence) (read_lines j lines)

abbrev pub AreOrdered : Json → Map (List String) → Type 0
AreOrdered j [] = Unit
AreOrdered j ((name, lines) ∷ files) = EndsLast j lines (last_entry j lines) × AreOrdered j files

filter-append :
    (p : WalEntry → Bool) (xs ys : List WalEntry) → filter p (xs ++ ys) ≡ filter p xs ++ filter p ys
filter-append p [] ys = refl
filter-append p (x ∷ xs) ys = ground (arith, filter-append p xs ys)

filter-past :
    (from n : ℕ) (es : List WalEntry)
    → n ≤ from
    → All (λ (e : WalEntry). e.sequence ≤ n) es
    → filter (after from) es ≡ []
filter-past from n [] le a = refl
filter-past from n (e ∷ es) le a = ground (arith, filter-past from n es le a.1, a.0, le)

abbrev old_of : ℕ → Option WalEntry → Bool
old_of before none = false
old_of before (some e) = ltb e.sequence before

old_file :
    (j : Json) (before from : ℕ) (lines : List String)
    → before ≤ from + 1
    → EndsLast j lines (last_entry j lines)
    → is_old j before lines ≡ true
    → filter (after from) (read_lines j lines) ≡ []
old_file j before from lines le ends old = elim (Option-cases (last_entry j lines)) [
  | inl e ↦ absurd (cc (sym (ap (old_of before) e) ∙ old))
  | inr (last, e) ↦
      let less : ltb last.sequence before ≡ true = sym (ap (old_of before) e) ∙ old in
      filter-past from last.sequence (read_lines j lines) (ground (arith, less, le))
        (subst (EndsLast j lines) e ends)
]

kept_entries :
    (j : Json) (current : String) (before from : ℕ) (files : Map (List String))
    → before ≤ from + 1
    → AreOrdered j files
    → filter (after from) (read_files j (truncate_files j current before files))
      ≡ filter (after from) (read_files j files)
unfolding read_files truncate_files
kept_entries j current before from [] le a = refl
kept_entries j current before from ((name, lines) ∷ files) le a =
    let rest = read_files j files in
    let kept = read_files j (truncate_files j current before files) in
    let same = kept_entries j current before from files le a.1 in
    let both : filter (after from) (read_lines j lines ++ kept)
        ≡ filter (after from) (read_lines j lines ++ rest) =
      filter-append (after from) (read_lines j lines) kept
      ∙ ap (λ es. filter (after from) (read_lines j lines) ++ es) same
      ∙ sym (filter-append (after from) (read_lines j lines) rest) in
    elim (Bool-cases (str_eq name current)) [
      | inl t ↦ rw (t, truncate_files) both
      | inr t ↦ elim (Bool-cases (is_old j before lines)) [
        | inl old ↦
            rw (t, truncate_files, old)
              (same
                ∙ sym (
                    filter-append (after from) (read_lines j lines) rest
                    ∙ ap (λ es. es ++ filter (after from) rest)
                        (old_file j before from lines le a.0 old)))
        | inr old ↦ rw (t, truncate_files, old) both
      ]
    ]

-- In a log whose files end with the greatest number in them: truncating before a number changes no
-- later replay from that number on, or from one less.
pub replay-truncate :
    (j : Json) (s : WriteAheadLog) (before from : ℕ)
    → AreOrdered j s.files
    → before ≤ from + 1
    → replay j (truncate j s before) from ≡ replay j s from
unfolding replay truncate
replay-truncate j s before from a le =
    ap (Sort.sort (λ (e : WalEntry). e.sequence))
      (kept_entries j s.current_file before from s.files le a)
