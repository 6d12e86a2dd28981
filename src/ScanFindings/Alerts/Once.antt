-- ===== src/ScanFindings/Alerts/Once.antt =====
-- The cursor of the alerts: what is new to it, and that no finding is told of twice.
use mail_sync_portal.Base.{
  ℕ, ◌+◌, ◌≤◌, ◌<◌, min, ◌≡◌, refl, sym, ◌∙◌, ap, subst, pos, String, Bool, true, false, Option,
  none, some, List, [], ◌∷◌, length, take, select, ltb, All, All-map_to, All-take, select-All,
  ltb→lt, Bool-cases, inl, inr, arith, strip, of_option, of_if, of_test,
}
use mail_sync_portal.ScanFindings.{
  Finding, Findings, Entry, parse_line, read_from, read_all, get_findings, max_id, is_after, sorted,
}
use mail_sync_portal.ScanFindings.Alerts.{
  Alert, Check, check_one, check_all, on_answer, check_scan_findings, served, alert_of, moved,
}
use mail_sync_portal.ScanFindings.Order.{All-sorted, length-sorted, length-cut}

-- Rows whose ids grow from `i` on.
abbrev Grows : ℕ → List Finding → Type 0
Grows i [] = Unit
Grows i (r ∷ rows) = (i ≤ r.id) × Grows (r.id + 1) rows

Grows-from : (i j : ℕ) → i ≤ j → (rows : List Finding) → Grows j rows → Grows i rows
Grows-from i j h [] g = tt
Grows-from i j h (r ∷ rows) g = (omega arith, g.1)

read_from-Grows :
    (lower : String → String) (parse : String → Option Entry) (i : ℕ) (lines : List String)
    → Grows i (read_from lower parse i lines)
unfolding read_from
read_from-Grows lower parse i [] = tt
read_from-Grows lower parse i (line ∷ lines) =
    let h = read_from-Grows lower parse (i + 1) lines in
    of_option (Grows i) (parse_line parse (strip line))
      (Grows-from i (i + 1) (omega arith) (read_from lower parse (i + 1) lines) h)
      (λ e. (omega arith, h))

max_id-from :
    (i : ℕ) (r : Finding) (rows : List Finding) → Grows i (r ∷ rows) → i ≤ max_id (r ∷ rows)
unfolding max_id
max_id-from i r [] g = g.0
max_id-from i r (s ∷ rows) g =
    (let h = max_id-from (r.id + 1) s rows g.1 in let k = g.0 in omega arith)

-- No id is above that of the last row.
max_id-bounds : (i : ℕ) (rows : List Finding) → Grows i rows → All (λ r. r.id ≤ max_id rows) rows
unfolding max_id
max_id-bounds i [] g = tt
max_id-bounds i (r ∷ []) g = (omega arith, tt)
max_id-bounds i (r ∷ (s ∷ rows)) g = (
  (let h = max_id-from (r.id + 1) s rows g.1 in omega arith),
  max_id-bounds (r.id + 1) (s ∷ rows) g.1,
)

moved-ahead : (c top : ℕ) → (d : ℕ) × (moved (some c) c top ≡ some d) × (top ≤ d)
moved-ahead c top = elim (Bool-cases (ltb c top)) [
  | inl e ↦ (top, (rw e refl), omega arith)
  | inr e ↦ (c, (rw e refl), ground arith)
]

-- What an alert tells: its number, and the rows of its details.
abbrev pub told : Option Alert → ℕ
told none = 0
told (some a) = a.count

abbrev pub items_of : Option Alert → List Finding
items_of none = []
items_of (some a) = a.items

told-alert_of : (rows : List Finding) → told (alert_of rows) ≡ length rows
told-alert_of [] = refl
told-alert_of (r ∷ rows) = refl

items-alert_of : (rows : List Finding) → items_of (alert_of rows) ≡ take 20 rows
items-alert_of [] = refl
items-alert_of (r ∷ rows) = refl

abbrev pub new_rows : ℕ → List Finding → List Finding
new_rows since rows = select (is_after (pos since)) rows

-- In a check that reaches VM2 the number that the alert names is that of the findings behind the cursor,
-- but at most 50, and 0 where there is no alert.
pub told-check :
    (rows : List Finding) (since : ℕ)
    → told (check_scan_findings (served true rows) (some since)).1
      ≡ min 50 (length (new_rows since rows))
unfolding check_scan_findings get_findings
told-check rows since =
    told-alert_of (take 50 (sorted (new_rows since rows)))
    ∙ length-cut 50 (sorted (new_rows since rows))
    ∙ ap (min 50) (length-sorted (new_rows since rows))

-- The rows of an alert are behind the cursor.
items-new :
    (reached : Bool) (rows : List Finding) (d : ℕ)
    → All (λ s. d < s.id) (items_of (check_scan_findings (served reached rows) (some d)).1)
unfolding check_scan_findings get_findings
items-new false rows d = tt
items-new true rows d =
    let P = λ (s : Finding). d < s.id in
    let new = sorted (new_rows d rows) in
    let h =
      All-map_to P (λ s e. ltb→lt d s.id e) (new_rows d rows)
        (select-All (is_after (pos d)) rows) in
    subst (All P) (sym (items-alert_of (take 50 new)))
      (All-take P 20 (take 50 new) (All-take P 50 new (All-sorted P (new_rows d rows) h)))

-- A cursor that is there and not before `d`.
abbrev AtLeast : ℕ → Option ℕ → Type 0
AtLeast d none = ⊥
AtLeast d (some c) = d ≤ c

-- The alert has only rows behind `d`.
abbrev pub IsNewer : ℕ → Option Alert → Type 0
IsNewer d a = All (λ s. d < s.id) (items_of a)

check-AtLeast :
    (d c : ℕ) (k : Check)
    → d ≤ c
    → AtLeast d (check_scan_findings (served k.reached k.rows) (some c)).0
unfolding check_scan_findings get_findings
check-AtLeast d c k le =
    of_if (λ (o : Option Findings). AtLeast d (on_answer (some c) c o).0) k.reached
      (of_test (AtLeast d) (ltb c (max_id k.rows))
        (λ e. (let h = ltb→lt c (max_id k.rows) e in omega arith)) (λ e. le))
      le

one-AtLeast : (d c : ℕ) (k : Check) → d ≤ c → AtLeast d (check_one k (some c)).0
unfolding check_one
one-AtLeast d c k le = of_if (AtLeast d) k.committed (check-AtLeast d c k le) le

check_all-IsNewer :
    (d : ℕ) (cs : List Check) (state : Option ℕ)
    → AtLeast d state
    → All (IsNewer d) (check_all cs state).1
unfolding check_all check_one
check_all-IsNewer d [] state h = tt
check_all-IsNewer d (k ∷ cs) none h = absurd h
check_all-IsNewer d (k ∷ cs) (some c) h = (
  All-map_to (λ (s : Finding). d < s.id) (λ s lt. (let g = h in omega arith))
      (items_of (check_scan_findings (served k.reached k.rows) (some c)).1)
      (items-new k.reached k.rows c),
  check_all-IsNewer d cs (check_one k (some c)).0 (one-AtLeast d c k h),
)

-- Where the portal keeps a cursor: after a run of the checks that reached VM2 and was committed, every
-- alert of all later runs has only rows that are newer than all that the log held then. The later runs
-- may fail to reach VM2 or to commit, and the log may hold anything in them.
pub check_once :
    (lower : String → String) (parse : String → Option Entry) (lines : List String) (since : ℕ)
    (later : List Check)
    → let log = read_all lower parse lines in
      let first_check : Check = record { reached = true; rows = log; committed = true } in
      All
        (λ (r : Finding).
          All (IsNewer r.id) (check_all later (check_one first_check (some since)).0).1)
        log
unfolding check_one check_scan_findings get_findings read_all
check_once lower parse lines since later =
    let rows = read_from lower parse 1 lines in
    let m = moved-ahead since (max_id rows) in
    let Q =
      λ (o : Option ℕ). All (λ (r : Finding). All (IsNewer r.id) (check_all later o).1) rows in
    subst Q (sym m.1) (
      All-map_to (λ (r : Finding). All (IsNewer r.id) (check_all later (some m.0)).1)
        (λ r b. check_all-IsNewer r.id later (some m.0) (let top = m.2 in omega arith)) rows
        (max_id-bounds 1 rows (read_from-Grows lower parse 1 lines)))
