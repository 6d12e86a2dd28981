-- ===== src/ScanFindings/Laws.antt =====
-- What the answer on the findings shows and counts, and the alerts that follow from it.
use mail_sync_portal.Base.{
  ℕ, Bool, not, ◌+◌, ◌≡◌, refl, sym, ◌∙◌, subst, ℤ, pos, String, true, false, Option, List, [], ◌∷◌,
  ◌&&◌, ◌||◌, str_eq, eq_iff, length, select, count_where, or_else, All, Bool-cases, inl, inr,
  arith, if◌then◌else◌, strip, starts_with, of_test, of_if, of_option,
}
use mail_sync_portal.ScanFindings.{
  Finding, Findings, Entry, classify, ends_with, finding, parse_line, read_from, read_all,
  count_one, count_of, tally, get_findings, is_after, severity_key, engine_key,
}
use mail_sync_portal.ScanFindings.Order.{IsTop, sorted-IsTop}

-- The findings that are shown, of all and of the new ones, are the first by severity and then by age:
-- no more severe and no newer one of the same severity is left out for one that is shown.
pub get_findings-IsTop :
    (rows : List Finding) (since_id : ℤ) (n : ℕ)
    → IsTop n rows (get_findings rows since_id (pos n)).recent
      × IsTop n (select (is_after since_id) rows) (get_findings rows since_id (pos n)).new
unfolding get_findings
get_findings-IsTop rows since_id n =
    (sorted-IsTop n rows, sorted-IsTop n (select (is_after since_id) rows))

-- 1 for a text that is the other one
one : String → String → ℕ
one a k = if str_eq a k then 1 else 0

-- Texts that differ are not both the third.
apart : (a b k : String) → str_eq b a ≡ false → (str_eq b k && str_eq a k) ≡ false
apart a b k e = elim (Bool-cases (str_eq b k)) [
  | inr f ↦ ground arith
  | inl f ↦ elim (Bool-cases (str_eq a k)) [
    | inr g ↦ ground arith
    | inl g ↦ absurd (
        let same : str_eq b a ≡ true = (eq_iff b a).1 ((eq_iff b k).0 f ∙ sym ((eq_iff a k).0 g)) in
        ground arith)
  ]
]

count_of-count_one :
    (a k : String) (t : List (String × ℕ)) → count_of k (count_one a t) ≡ one a k + count_of k t
unfolding count_of count_one one
count_of-count_one a k [] = ground arith
count_of-count_one a k ((b, n) ∷ t) =
    let h = count_of-count_one a k t in
    of_test (λ l. count_of k l ≡ one a k + count_of k ((b, n) ∷ t)) (str_eq b a)
      (λ e.
        subst (λ c. count_of k ((b, n + 1) ∷ t) ≡ one c k + count_of k ((b, n) ∷ t))
          ((eq_iff b a).0 e) (ground arith))
      (λ e. (let g = apart a b k e in ground arith))

count_of-tally :
    (key : Finding → String) (k : String) (rows : List Finding) (t : List (String × ℕ))
    → count_of k (tally key rows t) ≡ count_where (λ r. str_eq (key r) k) rows + count_of k t
unfolding tally count_where one
count_of-tally key k [] t = omega arith
count_of-tally key k (r ∷ rows) t =
    let h = count_of-tally key k rows (count_one (key r) t) in
    let g = count_of-count_one (key r) k t in ground arith

-- The four grades: each finding has exactly one.
abbrev grades : String → ℕ
unfolding one
grades s = one s "malware" + (one s "suspicious" + (one s "spam" + one s "bulk"))

classify-grades : (lower : String → String) (e s : String) → grades (classify lower e s) ≡ 1
unfolding classify one
classify-grades lower e s =
    let P = λ (x : String). grades x ≡ 1 in
    of_if P (str_eq e "rspamd") (of_if P (starts_with (lower s) "reject") refl refl)
      (of_if P (starts_with s "Heuristics." || ends_with s ".UNOFFICIAL") refl refl)

abbrev IsGraded : Finding → Type 0
IsGraded r = grades r.severity ≡ 1

read_from-IsGraded :
    (lower : String → String) (parse : String → Option Entry) (i : ℕ) (lines : List String)
    → All IsGraded (read_from lower parse i lines)
unfolding read_from
read_from-IsGraded lower parse i [] = tt
read_from-IsGraded lower parse i (line ∷ lines) =
    let h = read_from-IsGraded lower parse (i + 1) lines in
    of_option (All IsGraded) (parse_line parse (strip line)) h
      (λ e. (classify-grades lower (or_else "" e.engine) (or_else "" e.signature), h))

abbrev with_grade : String → List Finding → ℕ
with_grade k rows = count_where (λ r. str_eq (severity_key r) k) rows

grades-length :
    (rows : List Finding)
    → All IsGraded rows
    → with_grade "malware" rows
        + (with_grade "suspicious" rows + (with_grade "spam" rows + with_grade "bulk" rows))
      ≡ length rows
unfolding count_where one
grades-length [] h = refl
grades-length (r ∷ rows) h = (let g = grades-length rows h.1 in let f = h.0 in ground arith)

-- The grade of a finding by its engine and its signature: one of rspamd is spam where the signature
-- begins with "reject" and bulk else; another one is suspicious where it is heuristic or unofficial, and
-- malware else.
pub record HasGrade (lower : String → String) (r : Finding) : Type 0 where
  pub spam : str_eq r.severity "spam" ≡ (
      str_eq (or_else "" r.entry.engine) "rspamd"
      && starts_with (lower (or_else "" r.entry.signature)) "reject")
  pub bulk : str_eq r.severity "bulk" ≡ (
      str_eq (or_else "" r.entry.engine) "rspamd"
      && not (starts_with (lower (or_else "" r.entry.signature)) "reject"))
  pub suspicious : str_eq r.severity "suspicious" ≡ (
      not (str_eq (or_else "" r.entry.engine) "rspamd")
      && (starts_with (or_else "" r.entry.signature) "Heuristics."
          || ends_with (or_else "" r.entry.signature) ".UNOFFICIAL"))

by_tests : Bool → Bool → Bool → String
by_tests rspamd reject advisory =
    if rspamd
    then (if reject then "spam" else "bulk")
    else if advisory
    then "suspicious"
    else "malware"

by_tests-grade :
    (a b c : Bool)
    → (str_eq (by_tests a b c) "spam" ≡ (a && b))
      × (str_eq (by_tests a b c) "bulk" ≡ (a && not b))
      × (str_eq (by_tests a b c) "suspicious" ≡ (not a && c))
unfolding by_tests
by_tests-grade true true c = (refl, refl, refl)
by_tests-grade true false c = (refl, refl, refl)
by_tests-grade false b true = (refl, refl, refl)
by_tests-grade false b false = (refl, refl, refl)

finding-HasGrade :
    (lower : String → String) (i : ℕ) (e : Entry) → HasGrade lower (finding lower i e)
unfolding classify by_tests
finding-HasGrade lower i e =
    let s = or_else "" e.signature in
    let g =
      by_tests-grade (str_eq (or_else "" e.engine) "rspamd") (starts_with (lower s) "reject")
        (starts_with s "Heuristics." || ends_with s ".UNOFFICIAL") in
    record { spam = g.0; bulk = g.1; suspicious = g.2 }

read_from-HasGrade :
    (lower : String → String) (parse : String → Option Entry) (i : ℕ) (lines : List String)
    → All (HasGrade lower) (read_from lower parse i lines)
unfolding read_from
read_from-HasGrade lower parse i [] = tt
read_from-HasGrade lower parse i (line ∷ lines) =
    let h = read_from-HasGrade lower parse (i + 1) lines in
    of_option (All (HasGrade lower)) (parse_line parse (strip line)) h
      (λ e. (finding-HasGrade lower i e, h))

-- The counts of an answer on the rows: each count is the number of the rows with its text, and the four
-- grades are all of them.
pub record IsCounted (rows : List Finding) (f : Findings) : Type 0 where
  pub engines :
      (k : String) → count_of k f.by_engine ≡ count_where (λ r. str_eq (engine_key r) k) rows
  pub threats : f.threats ≡ with_grade "malware" rows
  pub review : f.review ≡ with_grade "suspicious" rows
  pub spam_reject : f.spam_reject ≡ with_grade "spam" rows
  pub spam_bulk : f.spam_bulk ≡ with_grade "bulk" rows
  pub severities : (k : String) → count_of k f.by_severity ≡ with_grade k rows
  pub total : f.total ≡ length rows
  pub grades_total : f.threats + (f.review + (f.spam_reject + f.spam_bulk)) ≡ f.total

counted :
    (key : Finding → String) (k : String) (rows : List Finding)
    → count_of k (tally key rows []) ≡ count_where (λ r. str_eq (key r) k) rows
unfolding count_of
counted key k rows = (let h = count_of-tally key k rows [] in omega arith)

-- Whatever the log of the scanners holds, its findings have the grades of their engines and signatures,
-- and the counts of the answer are the numbers of its findings with each engine and each grade; the four
-- grades add up to the total, which is the number of all.
pub get_findings-IsCounted :
    (lower : String → String) (parse : String → Option Entry) (lines : List String)
    (since_id limit : ℤ)
    → All (HasGrade lower) (read_all lower parse lines)
      × IsCounted
          (read_all lower parse lines)
          (get_findings (read_all lower parse lines) since_id limit)
unfolding get_findings read_all
get_findings-IsCounted lower parse lines since_id limit =
    let rows = read_from lower parse 1 lines in
    (
      read_from-HasGrade lower parse 1 lines,
      record {
        engines = λ k. counted engine_key k rows;
        threats = counted severity_key "malware" rows;
        review = counted severity_key "suspicious" rows;
        spam_reject = counted severity_key "spam" rows;
        spam_bulk = counted severity_key "bulk" rows;
        severities = λ k. counted severity_key k rows;
        total = refl;
        grades_total =
            (let a = counted severity_key "malware" rows in
              let b = counted severity_key "suspicious" rows in
              let c = counted severity_key "spam" rows in
              let d = counted severity_key "bulk" rows in
              let g = grades-length rows (read_from-IsGraded lower parse 1 lines) in omega arith);
      },
    )
