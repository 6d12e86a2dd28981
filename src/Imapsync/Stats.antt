-- ===== src/Imapsync/Stats.antt =====
-- services/imapsync_runner.py, `_parse_stats`: the counts that the log of imapsync ends with. What `\d`
-- matches, with its value, is a parameter.
use Prim.Native.Char.{Char, code}
use Prim.Native.String.{count}
use mail_sync_portal.Base.{
  ℕ, zero, suc, ◌+◌, ◌-◌, ◌*◌, ◌==◌, ◌≡◌, refl, String, Option, none, some, List, [], ◌∷◌, any,
  lstrip, if◌then◌else◌, leb, ◌&&◌,
}
use mail_sync_portal.Db.{Stats}

-- The pieces of the patterns: a text, `\s*`, `(\d+)`, and `.*?`.
pub data Piece : Type 0 where
  text : String → Piece
  spaces number anything : Piece

-- The groups of a match, and the text behind it.
abbrev pub Match : Type 0
Match = Option (List ℕ × String)

unfoldable pub drop_prefix : String → String → Option String
drop_prefix s String.[] = some s
drop_prefix String.[] (String.◌∷◌ d p) = none
drop_prefix (String.◌∷◌ c s) (String.◌∷◌ d p) =
    let rest = drop_prefix s p in if code c == code d then rest else none

module _ (digit : Char → Option ℕ) where
  -- The digits at the front, with those before them as `n`.
  unfoldable pub more_digits : ℕ → String → ℕ × String
  more_digits n String.[] = (n, "")
  more_digits n (String.◌∷◌ c s) = elim (digit c) [
    | none ↦ (n, String.◌∷◌ c s)
    | some d ↦ more_digits (n * 10 + d) s
  ]

  unfoldable pub take_number : String → Option (ℕ × String)
  take_number String.[] = none
  take_number (String.◌∷◌ c s) = elim (digit c) [ none ↦ none | some d ↦ some (more_digits d s) ]

  abbrev pub add_group : ℕ → Match → Match
  add_group n none = none
  add_group n (some (ns, rest)) = some (n ∷ ns, rest)

  -- `.*?` before what `after` matches: as few characters as it can be, none of them a line feed.
  unfoldable pub lazily : (String → Match) → String → Match
  lazily after String.[] = after ""
  lazily after (String.◌∷◌ c s) =
      let longer = lazily after s in
      elim (after (String.◌∷◌ c s)) [
        | some m ↦ some m
        | none ↦ (if code c == 10 then none else longer)
      ]

  -- No piece is followed by one that could take what it has taken, so nothing is tried again.
  unfoldable pub match_at : List Piece → String → Match
  match_at [] s = some ([], s)
  match_at (text p ∷ ps) s = elim (drop_prefix s p) [ none ↦ none | some rest ↦ match_at ps rest ]
  match_at (spaces ∷ ps) s = match_at ps (lstrip s)
  match_at (number ∷ ps) s = elim (take_number s) [
    | none ↦ none
    | some (n, rest) ↦ add_group n (match_at ps rest)
  ]
  match_at (anything ∷ ps) s = lazily (match_at ps) s

  -- pattern.search(s)
  unfoldable pub search : List Piece → String → Option (List ℕ)
  search ps String.[] = elim (match_at ps "") [ none ↦ none | some (ns, rest) ↦ some ns ]
  search ps (String.◌∷◌ c s) =
      let later = search ps s in
      elim (match_at ps (String.◌∷◌ c s)) [ none ↦ later | some (ns, rest) ↦ some ns ]

  -- pattern.findall(s), where `taken` characters belong to the match before
  unfoldable pub find_all : List Piece → ℕ → String → List (List ℕ)
  find_all ps taken String.[] = []
  find_all ps (suc taken) (String.◌∷◌ c s) = find_all ps taken s
  find_all ps zero (String.◌∷◌ c s) = elim (match_at ps (String.◌∷◌ c s)) [
    | none ↦ find_all ps zero s
    | some (ns, rest) ↦ ns ∷ find_all ps (count s - count rest) s
  ]

  abbrev pub nth : ℕ → List ℕ → ℕ
  nth k [] = 0
  nth zero (n ∷ ns) = n
  nth (suc k) (n ∷ ns) = nth k ns

  -- the group of a match, 0 where there is no match
  abbrev pub group : ℕ → Option (List ℕ) → ℕ
  group k none = 0
  group k (some ns) = nth k ns

  unfoldable pub sum_first : List (List ℕ) → ℕ
  sum_first [] = 0
  sum_first (ns ∷ rest) = nth 0 ns + sum_first rest

  abbrev pub counted : String → List Piece
  counted label = text label ∷ spaces ∷ text ":" ∷ spaces ∷ number ∷ []

  abbrev pub totalled : String → List Piece
  totalled label = text label ∷ spaces ∷ number ∷ []

  -- `_parse_stats`
  unfoldable pub parse_stats : String → Stats
  parse_stats stdout =
      let one = λ (ps : List Piece). group 0 (search ps stdout) in
      let folders =
        search
          (text "Folders synced"
            ∷ spaces
            ∷ text ":"
            ∷ spaces
            ∷ number
            ∷ spaces
            ∷ text "/"
            ∷ spaces
            ∷ number
            ∷ [])
          stdout in
      record {
        messages_transferred = one (counted "Messages transferred");
        bytes_transferred = one (counted "Total bytes transferred");
        messages_total = one (text "all " ∷ number ∷ text " identified messages in host1" ∷ []);
        folders_synced = group 0 folders;
        folders_total = group 1 folders;
        source_messages_total = sum_first (
            find_all
              (text "Host1: folder ["
                ∷ anything
                ∷ text "] has "
                ∷ number
                ∷ text " messages in total"
                ∷ [])
              0 stdout);
        source_bytes = one (totalled "Host1 Total size:");
        dest_bytes_reported = one (totalled "Host2 Total size:");
        dest_nb_messages = one (totalled "Host2 Nb messages:");
        source_nb_messages = one (totalled "Host1 Nb messages:");
        source_duplicates = one (counted "Messages found duplicate on host1");
        source_missing = one (counted "Messages found in host1 not in host2");
      }

-- the digits of ASCII
abbrev ascii_digit : Char → Option ℕ
ascii_digit c = if leb 48 (code c) && leb (code c) 57 then some (code c - 48) else none

folder_counts :
    (search ascii_digit
        (counted ascii_digit "Messages transferred")
        "x\nMessages transferred   : 486\n"
      ≡ some (486 ∷ []))
    × (sum_first ascii_digit (
          find_all ascii_digit
            (text "Host1: folder ["
              ∷ anything
              ∷ text "] has "
              ∷ number
              ∷ text " messages in total"
              ∷ [])
            0
            "Host1: folder [IN] has 27 messages in total\nHost1: folder [a] has 3 messages in total")
        ≡ 30)
unfolding search match_at drop_prefix lstrip take_number more_digits find_all sum_first lazily any
folder_counts = (refl, refl)
