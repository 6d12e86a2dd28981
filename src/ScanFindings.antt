-- ===== src/ScanFindings.antt =====
-- vm2_api/vm2_api/services/scan_findings.py: what the scanners found, graded, counted and sorted. The
-- lower-casing of texts and the reading of a line as JSON are parameters.
pub mod Alerts
pub mod Order
pub mod Laws
use mail_sync_portal.Base.{
  ℕ, zero, suc, ◌+◌, ◌-◌, ◌==◌, ℤ, pos, negsuc, String, Bool, true, false, Option, none, some, List,
  [], ◌∷◌, ◌&&◌, ◌||◌, str_eq, length, take, select, ltb, or_else, if◌then◌else◌, starts_with,
  strip,
}

-- The object of a line, by the keys that the code reads; the engine is a text where its key is there,
-- and a signature that is null stands as one that is missing.
pub record Entry : Type 0 where
  pub engine : Option String
  pub signature : Option String

-- A row of the list that `_read_all` returns.
pub record Finding : Type 0 where
  pub id : ℕ
  pub entry : Entry
  pub severity : String

-- s.endswith(p)
unfoldable pub ends_with : String → String → Bool
ends_with String.[] p = str_eq p ""
ends_with (String.◌∷◌ c s) p = let rest = ends_with s p in str_eq (String.◌∷◌ c s) p || rest

unfoldable pub classify : (String → String) → String → String → String
classify lower engine sig =
    if str_eq engine "rspamd"
    then (if starts_with (lower sig) "reject" then "spam" else "bulk")
    else if starts_with sig "Heuristics." || ends_with sig ".UNOFFICIAL"
    then "suspicious"
    else "malware"

abbrev pub parse_line : (String → Option Entry) → String → Option Entry
parse_line parse line = if str_eq line "" then none else parse line

abbrev pub finding : (String → String) → ℕ → Entry → Finding
finding lower i e = record {
  id = i;
  entry = e;
  severity = classify lower (or_else "" e.engine) (or_else "" e.signature);
}

-- The loop of `_read_all` from the line with the number `i`.
unfoldable pub read_from :
    (String → String) → (String → Option Entry) → ℕ → List String → List Finding
read_from lower parse i [] = []
read_from lower parse i (line ∷ lines) =
    let rest = read_from lower parse (i + 1) lines in
    elim (parse_line parse (strip line)) [ none ↦ rest | some e ↦ finding lower i e ∷ rest ]

-- `_read_all`; a file that is missing has no lines.
unfoldable pub read_all : (String → String) → (String → Option Entry) → List String → List Finding
read_all lower parse lines = read_from lower parse 1 lines

abbrev pub rank_of : String → ℕ
rank_of s =
    if str_eq s "malware"
    then 3
    else if str_eq s "suspicious"
    then 2
    else if str_eq s "spam"
    then 1
    else 0

abbrev pub rank : Finding → ℕ
rank r = rank_of r.severity

-- `d[k] = d.get(k, 0) + 1` on a dict of counts
unfoldable pub count_one : String → List (String × ℕ) → List (String × ℕ)
count_one k [] = (k, 1) ∷ []
count_one k ((a, n) ∷ t) =
    let rest = count_one k t in if str_eq a k then (a, n + 1) ∷ t else (a, n) ∷ rest

-- `d.get(k, 0)`
unfoldable pub count_of : String → List (String × ℕ) → ℕ
count_of k [] = 0
count_of k ((a, n) ∷ t) = if str_eq a k then n else count_of k t

-- The counts of the rows by one of their texts, on top of what is counted.
unfoldable pub tally : (Finding → String) → List Finding → List (String × ℕ) → List (String × ℕ)
tally key [] t = t
tally key (r ∷ rows) t = tally key rows (count_one (key r) t)

-- The key of `a` is greater than that of `b`.
abbrev pub precedes : Finding → Finding → Bool
precedes a b = ltb (rank b) (rank a) || (rank a == rank b && ltb b.id a.id)

-- `sorted(rows, key=_key, reverse=True)`, which keeps the order of rows with one key
unfoldable pub insert_row : Finding → List Finding → List Finding
insert_row x [] = x ∷ []
insert_row x (y ∷ ys) = let rest = insert_row x ys in if precedes y x then y ∷ rest else x ∷ y ∷ ys

unfoldable pub sorted : List Finding → List Finding
sorted [] = []
sorted (x ∷ xs) = insert_row x (sorted xs)

-- rows[:limit]
abbrev pub cut : ℤ → List Finding → List Finding
cut (pos n) rows = take n rows
cut (negsuc n) rows = take (length rows - (n + 1)) rows

unfoldable pub max_id : List Finding → ℕ
max_id [] = 0
max_id (r ∷ []) = r.id
max_id (r ∷ (s ∷ rows)) = max_id (s ∷ rows)

-- r["id"] > since_id
abbrev pub is_after : ℤ → Finding → Bool
is_after (pos n) r = ltb n r.id
is_after (negsuc n) r = true

pub record Findings : Type 0 where
  pub total : ℕ
  pub max_id : ℕ
  pub new_count : ℕ
  pub new : List Finding
  pub recent : List Finding
  pub by_engine : List (String × ℕ)
  pub by_severity : List (String × ℕ)
  pub threats : ℕ
  pub review : ℕ
  pub spam_reject : ℕ
  pub spam_bulk : ℕ

abbrev pub engine_key : Finding → String
engine_key r = or_else "?" r.entry.engine

abbrev pub severity_key : Finding → String
severity_key r = r.severity

-- `get_findings` on the rows that it reads
unfoldable pub get_findings : List Finding → ℤ → ℤ → Findings
get_findings rows since_id limit =
    let new_rows = select (is_after since_id) rows in
    let by_severity = tally severity_key rows [] in
    record {
      total = length rows;
      max_id = max_id rows;
      new_count = length new_rows;
      new = cut limit (sorted new_rows);
      recent = cut limit (sorted rows);
      by_engine = tally engine_key rows [];
      by_severity = by_severity;
      threats = count_of "malware" by_severity;
      review = count_of "suspicious" by_severity;
      spam_reject = count_of "spam" by_severity;
      spam_bulk = count_of "bulk" by_severity;
    }
