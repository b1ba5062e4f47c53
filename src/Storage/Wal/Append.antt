-- ===== src/Storage/Wal/Append.antt =====
-- What a log holds after a record was appended.
use toradb.Prelude.{
  ◌≡◌, ◌≢◌, refl, sym, ap, ◌∙◌, Bool, true, false, Option, none, some, List, [], ◌∷◌, ◌++◌, Text,
  trim, all, Result, ok, err, ◌>>=◌,
}
use toradb.Storage.Wal.{Json, Faults, content, append_line, append_record, read_records, read_log}
use toradb.Storage.Wal.Lines.{
  lines, IsWhole, is_inline, lines_nil, lines-append, lines_line, append-IsWhole,
}

-- What is relied on: a record is printed on one line that is not blank, and is read back from it.
pub record LawfulJson {A : Type 0} (json : Json A) : Type 0 where
  pub one_line : (a : A) (s : Text) → json.to_string a ≡ ok s → all is_inline s ≡ true
  pub not_blank : (a : A) (s : Text) → json.to_string a ≡ ok s → trim s ≢ []
  pub from_str-to_string : (a : A) (s : Text) → json.to_string a ≡ ok s → json.from_str s ≡ ok a

-- No call of the system fails.
abbrev pub no_faults : Faults
no_faults = record {
  create_dir_all = none;
  open_file = none;
  read = none;
  write = none;
  torn = [];
  sync_all = none;
  remove_file = none;
}

lines_content :
    (s l : Text)
    → IsWhole s
    → all is_inline l ≡ true
    → l ≢ []
    → lines (s ++ (l ++ 10 ∷ [])) ≡ lines s ++ l ∷ []
lines_content s [] h k n = absurd (n refl)
lines_content s (c ∷ l) h k n =
    lines-append s ((c ∷ l) ++ 10 ∷ []) h ∙ ap (λ ls. lines s ++ ls) (lines_line c l k)

module _ {A : Type 0} where
  abbrev join_ok : Result (List A) → Result (List A) → Result (List A)
  join_ok x q = x >>= λ rs. q >>= λ qs. ok (rs ++ qs)

  abbrev one_more : Text → Result A → Result (List A) → Result (List A)
  one_more t r x = elim t [ [] ↦ x | _ ∷ _ ↦ r >>= λ a. x >>= λ rs. ok (a ∷ rs) ]

  one_more-join :
      (t : Text) (r : Result A) (x q : Result (List A))
      → one_more t r (join_ok x q) ≡ join_ok (one_more t r x) q
  one_more-join [] r x q = refl
  one_more-join (c ∷ t) (err e) x q = refl
  one_more-join (c ∷ t) (ok a) (err e) q = refl
  one_more-join (c ∷ t) (ok a) (ok rs) (err e) = refl
  one_more-join (c ∷ t) (ok a) (ok rs) (ok qs) = refl

  join_nothing : (q : Result (List A)) → join_ok (ok []) q ≡ q
  join_nothing (ok qs) = refl
  join_nothing (err e) = refl

  -- The records of two groups of lines are those of the first, then those of the second.
  read_records-append :
      (json : Json A) (ls ms : List Text)
      → read_records json (ls ++ ms) ≡ join_ok (read_records json ls) (read_records json ms)
  unfolding read_records
  read_records-append json [] ms = sym (join_nothing (read_records json ms))
  read_records-append json (l ∷ ls) ms =
      ap (one_more (trim l) (json.from_str l)) (read_records-append json ls ms)
      ∙ one_more-join (trim l) (json.from_str l) (read_records json ls) (read_records json ms)

  read_records_one :
      (json : Json A) (l : Text) (a : A)
      → json.from_str l ≡ ok a
      → trim l ≢ []
      → read_records json (l ∷ []) ≡ ok (a ∷ [])
  unfolding read_records
  read_records_one json l a e k = by_trim (trim l) k
    where
      by_trim : (t : Text) → t ≢ [] → one_more t (json.from_str l) (ok []) ≡ ok (a ∷ [])
      by_trim [] n = absurd (n refl)
      by_trim (c ∷ t) n = rw e refl

module _ {A : Type 0} (json : Json A) (laws : LawfulJson json) where
  read_records_nil : read_records json [] ≡ ok []
  unfolding read_records
  read_records_nil = refl

  append_record_written :
      (sync : Bool) (a : A) (s : Text) (file : Option Text)
      → json.to_string a ≡ ok s
      → append_record json no_faults sync a file ≡ (ok tt, some (content file ++ (s ++ 10 ∷ [])))
  unfolding append_record append_line
  append_record_written true a s file h = rw (h, append_record) refl
  append_record_written false a s file h = rw (h, append_record) refl

  read_log-content :
      (file : Option Text) → read_log json no_faults file ≡ read_records json (lines (content file))
  unfolding read_log
  read_log-content none = sym (ap (read_records json) lines_nil ∙ read_records_nil)
  read_log-content (some s) = refl

  -- A record that was appended stands behind those that were there.
  pub read_log-append_record :
      (sync : Bool) (a : A) (s : Text) (file : Option Text) (rs : List A)
      → json.to_string a ≡ ok s
      → IsWhole (content file)
      → read_log json no_faults file ≡ ok rs
      → ((append_record json no_faults sync a file).0 ≡ ok tt)
        × (read_log json no_faults (append_record json no_faults sync a file).1 ≡ ok (rs ++ a ∷ []))
        × IsWhole (content (append_record json no_faults sync a file).1)
  read_log-append_record sync a s file rs h whole before =
      let text_ok = laws.one_line a s h in
      let full : s ≢ [] = λ e. laws.not_blank a s h (ap trim e ∙ (unfold trim in refl)) in
      let after : read_records json (lines (content file ++ (s ++ 10 ∷ []))) ≡ ok (rs ++ a ∷ []) =
        ap (read_records json) (lines_content (content file) s whole text_ok full)
        ∙ read_records-append json (lines (content file)) (s ∷ [])
        ∙ ap (λ x. join_ok x (read_records json (s ∷ []))) (sym (read_log-content file) ∙ before)
        ∙ ap (join_ok (ok rs))
            (read_records_one json s a (laws.from_str-to_string a s h) (laws.not_blank a s h)) in
      rw (append_record_written sync a s file h)
        (refl, read_log-content _ ∙ after, append-IsWhole (content file) s)
