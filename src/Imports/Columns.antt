-- ===== src/Imports/Columns.antt =====
-- services/xls_parser.py: from header and cells to rows by column name. The cells are those that
-- openpyxl or csv read, as `str` gives them, with `none` for None; `lower` is `str.lower`.
use Prim.Native.Char.{code}
use mail_sync_portal.Base.{
  ℕ, zero, suc, ◌+◌, String, Bool, true, false, Option, none, some, List, [], ◌∷◌, ◌&&◌, ◌||◌,
  str_eq, any, all, leb, if◌then◌else◌, strip, is_none, map,
}
use mail_sync_portal.Db.{RawRow}

-- ALL_COLUMNS: the three required columns, then the optional ones
pub data Column : Type 0 where
  source_domain source_username source_password destination_username display_name : Column

-- re.sub(r"[^a-z0-9]", "_", …)
unfoldable pub blank_out : String → String
blank_out String.[] = ""
blank_out (String.◌∷◌ c s) =
    let rest = blank_out s in
    let n = code c in
    if leb 97 n && leb n 122 || leb 48 n && leb n 57 then String.◌∷◌ c rest else String.◌∷◌ "_" rest

-- _HEADER_ALIASES, in the order of the dictionary
abbrev pub header_aliases : List (Column × List String)
header_aliases =
    (source_domain, "source_domain" ∷ "domena_zrodlowa" ∷ "domena" ∷ "domain" ∷ [])
    ∷ (source_username, "source_username" ∷ "login" ∷ "user" ∷ "username" ∷ "email" ∷ "e-mail" ∷ [])
    ∷ (source_password, "source_password" ∷ "haslo" ∷ "hasło" ∷ "password" ∷ [])
    ∷ (destination_username, "destination_username" ∷ "login_docelowy" ∷ "target_username" ∷ [])
    ∷ (display_name, "display_name" ∷ "nazwa" ∷ "imie_nazwisko" ∷ "imię i nazwisko" ∷ [])
    ∷ []

abbrev pub same_column : Column → Column → Bool
same_column source_domain source_domain = true
same_column source_username source_username = true
same_column source_password source_password = true
same_column destination_username destination_username = true
same_column display_name display_name = true
same_column _ _ = false

module _ (lower : String → String) where
  unfoldable pub normalize_header : String → String
  normalize_header value = blank_out (lower (strip value))

  unfoldable pub match_aliases : String → List (Column × List String) → Option Column
  match_aliases normalized [] = none
  match_aliases normalized ((column, aliases) ∷ rest) =
      if any (λ a. str_eq normalized (normalize_header a)) aliases
      then some column
      else match_aliases normalized rest

  unfoldable pub match_column : String → Option Column
  match_column header = match_aliases (normalize_header header) header_aliases

  -- The column map: the matched headers with their positions, from position `idx` on.
  unfoldable pub map_headers : ℕ → List (Option String) → List (ℕ × Column)
  map_headers idx [] = []
  map_headers idx (none ∷ hs) = map_headers (idx + 1) hs
  map_headers idx (some h ∷ hs) =
      let rest = map_headers (idx + 1) hs in
      elim (match_column h) [ none ↦ rest | some column ↦ (idx, column) ∷ rest ]

  abbrev pub has_column : Column → List (ℕ × Column) → Bool
  has_column column m = any (λ e. same_column column e.1) m

  -- `none` is the XlsParseError for missing columns.
  unfoldable pub build_column_map : List (Option String) → Option (List (ℕ × Column))
  build_column_map header_row =
      let m = map_headers 0 header_row in
      if has_column source_domain m
        && (has_column source_username m && has_column source_password m)
      then some m
      else none

unfoldable pub get_cell : ℕ → List (Option String) → Option (Option String)
get_cell i [] = none
get_cell zero (v ∷ vs) = some v
get_cell (suc i) (v ∷ vs) = get_cell i vs

abbrev pub set_column : Column → Option String → RawRow → RawRow
set_column source_domain v r = record r { source_domain = v }
set_column source_username v r = record r { source_username = v }
set_column source_password v r = record r { source_password = v }
set_column destination_username v r = record r { destination_username = v }
set_column display_name v r = record r { display_name = v }

abbrev pub get_column : Column → RawRow → Option String
get_column source_domain r = r.source_domain
get_column source_username r = r.source_username
get_column source_password r = r.source_password
get_column destination_username r = r.destination_username
get_column display_name r = r.display_name

abbrev pub empty_row : RawRow
empty_row = record {
  source_domain = none;
  source_username = none;
  source_password = none;
  destination_username = none;
  display_name = none;
}

-- the text of a cell: None for an empty one
unfoldable pub cell_text : Option String → Option String
cell_text none = none
cell_text (some value) = if str_eq value "" then none else some (strip value)

-- One entry of the map: a position behind the last cell changes nothing.
unfoldable pub write_cell : List (Option String) → ℕ × Column → RawRow → RawRow
write_cell values (idx, column) r = elim (get_cell idx values) [
  | none ↦ r
  | some v ↦ set_column column (cell_text v) r
]

unfoldable pub write_cells : List (Option String) → List (ℕ × Column) → RawRow → RawRow
write_cells values [] r = r
write_cells values (e ∷ m) r = write_cells values m (write_cell values e r)

unfoldable pub row_from_values : List (Option String) → List (ℕ × Column) → RawRow
row_from_values values m = write_cells values m empty_row

pub data ParseError : Type 0 where
  empty_file missing_columns : ParseError

pub data Parsed : Type 0 where
  rows : List RawRow → Parsed
  refused : ParseError → Parsed

-- The loop over the rows behind the header; rows that are blank are passed over.
unfoldable pub data_rows :
    (List (Option String) → Bool) → List (ℕ × Column) → List (List (Option String)) → List RawRow
data_rows blank m [] = []
data_rows blank m (cells ∷ rest) =
    let tail = data_rows blank m rest in
    if blank cells then tail else row_from_values cells m ∷ tail

unfoldable pub parse_rows :
    (List (Option String) → Bool) → (String → String) → List (List (Option String)) → Parsed
parse_rows blank lower [] = refused empty_file
parse_rows blank lower (header ∷ rest) = elim (build_column_map lower header) [
  | none ↦ refused missing_columns
  | some m ↦ rows (data_rows blank m rest)
]

-- `parse_xls`: a row is blank if all its cells are None
unfoldable pub parse_xls : (String → String) → List (List (Option String)) → Parsed
parse_xls = parse_rows (all is_none)

-- `parse_csv`: a row is blank if no cell has more than white space
unfoldable pub is_blank_text : Option String → Bool
is_blank_text none = true
is_blank_text (some s) = str_eq (strip s) ""

unfoldable pub parse_csv : (String → String) → List (List String) → Parsed
parse_csv lower lines = parse_rows (all is_blank_text) lower (map (map some) lines)
