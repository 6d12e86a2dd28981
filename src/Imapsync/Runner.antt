-- ===== src/Imapsync/Runner.antt =====
-- services/imapsync_runner.py: the arguments of imapsync and their last check. Which characters
-- beyond ASCII the regular expressions take for word characters (`\w`) is a parameter, `is_letter`.
pub mod Laws
use Prim.Native.Char.{Char, code}
use Prim.Native.String.{◌++◌}
use mail_sync_portal.Base.{
  ℕ, zero, suc, ℤ, pos, negsuc, ◌+◌, ◌≡◌, refl, String, Bool, true, false, not, Option, none, some,
  List, [], ◌∷◌, ◌++◌ as append, ◌&&◌, ◌||◌, ◌==◌, str_eq, any, ltb, leb, if◌then◌else◌,
  starts_with, show_ℤ, is_none,
}

-- \w over one character
unfoldable pub is_word : (Char → Bool) → Char → Bool
is_word is_letter c =
    let n = code c in
    leb 48 n && leb n 57
    || (leb 65 n && leb n 90)
    || (leb 97 n && leb n 122)
    || n == 95
    || (leb 128 n && is_letter c)

-- What follows the prefix `p` of `s`.
unfoldable pub strip_prefix : String → String → Option String
strip_prefix String.[] s = some s
strip_prefix (String.◌∷◌ d p) String.[] = none
strip_prefix (String.◌∷◌ d p) (String.◌∷◌ c s) = if code c == code d then strip_prefix p s else none

-- The rest begins at a word boundary: behind a word character it must not begin with another one.
at_boundary : (Char → Bool) → Option String → Bool
at_boundary is_letter none = false
at_boundary is_letter (some String.[]) = true
at_boundary is_letter (some (String.◌∷◌ c s)) = not (is_word is_letter c)

-- `delete1\w*\b` and `expunge1\w*\b` hold with the prefix alone: `\w*` runs up to a boundary.
abbrev pub open_words : List String
open_words = "delete1" ∷ "expunge1" ∷ []

abbrev pub closed_words : List String
closed_words =
    "search1" ∷ "noexpunge1" ∷ "pipemess" ∷ "pipemesscheck" ∷ "exec" ∷ "execafter" ∷ "execbefore"
    ∷ []

-- _FORBIDDEN_SOURCE_FLAGS.match(flag)
unfoldable pub is_forbidden : (Char → Bool) → String → Bool
unfolding at_boundary
is_forbidden is_letter flag =
    any (λ w. not (is_none (strip_prefix ("--" ++ w) flag))) open_words
    || any (λ w. at_boundary is_letter (strip_prefix ("--" ++ w) flag)) closed_words

pub record SyncArgs : Type 0 where
  pub source_host : String
  pub source_port : ℤ
  pub source_user : String
  pub source_passfile : String
  pub dest_host : String
  pub dest_port : ℤ
  pub dest_user : String
  pub dest_passfile : String
  pub days_back : ℤ
  pub preserve_folder_structure : Bool
  pub delete_on_dest_when_missing_from_source : Bool
  pub dry_run : Bool
  pub extra_flags : List String

-- The fixed part of the arguments.
unfoldable pub connection_argv : SyncArgs → List String
connection_argv a =
    "/usr/local/bin/imapsync"
    ∷ "--host1"
    ∷ a.source_host
    ∷ "--port1"
    ∷ show_ℤ a.source_port
    ∷ "--user1"
    ∷ a.source_user
    ∷ "--passfile1"
    ∷ a.source_passfile
    ∷ "--ssl1"
    ∷ "--host2"
    ∷ a.dest_host
    ∷ "--port2"
    ∷ show_ℤ a.dest_port
    ∷ "--user2"
    ∷ a.dest_user
    ∷ "--passfile2"
    ∷ a.dest_passfile
    ∷ "--ssl2"
    ∷ "--nolog"
    ∷ "--tmpdir"
    ∷ "/tmp"
    ∷ (if a.preserve_folder_structure then "--automap" else "--no-automap")
    ∷ []

-- `days_back and days_back > 0`
unfoldable pub max_age : ℤ → List String
max_age (pos zero) = []
max_age (pos (suc n)) = "--maxage" ∷ show_ℤ (pos (suc n)) ∷ []
max_age (negsuc n) = []

unfoldable pub all_argv : SyncArgs → List String
all_argv a = append (connection_argv a) (
    append (max_age a.days_back) (
      append (if a.delete_on_dest_when_missing_from_source then "--delete2" ∷ [] else [])
        (append (if a.dry_run then "--dry" ∷ [] else []) a.extra_flags)))

-- `none` is the ImapsyncSafetyError.
unfoldable pub build_argv : (Char → Bool) → SyncArgs → Option (List String)
build_argv is_letter a =
    let argv = all_argv a in if any (is_forbidden is_letter) argv then none else some argv
