-- ===== src/Imapsync/Flags.antt =====
-- services/imapsync_flags.py: the flags that an administrator may add, and those of the global options.
pub mod Laws
use Prim.Native.Char.{Char, code}
use Prim.Native.String.{◌++◌}
use mail_sync_portal.Base.{
  ℕ, ◌+◌, ◌-◌, ◌*◌, ◌≡◌, refl, String, Bool, true, false, not, Option, none, some, List, [], ◌∷◌,
  ◌++◌ as append, ◌&&◌, ◌||◌, ◌==◌, str_eq, any, ltb, leb, if◌then◌else◌, starts_with, split_at,
  strip, show_ℕ, or_else,
}
use mail_sync_portal.Imapsync.Shlex.{split}

-- _ALLOWED_FLAGS: each flag with whether it takes a value
abbrev pub allowed_flags : List (String × Bool)
allowed_flags =
    ("--exclude", true)
    ∷ ("--include", true)
    ∷ ("--folder", true)
    ∷ ("--folderrec", true)
    ∷ ("--subfolder2", true)
    ∷ ("--maxsize", true)
    ∷ ("--minsize", true)
    ∷ ("--maxage", true)
    ∷ ("--minage", true)
    ∷ ("--addheader", false)
    ∷ ("--useheader", true)
    ∷ ("--regexmess", true)
    ∷ ("--skipcrossduplicates", false)
    ∷ ("--useuid", false)
    ∷ ("--nosubscribe", false)
    ∷ ("--subscribe", false)
    ∷ ("--timeout", true)
    ∷ ("--timeout1", true)
    ∷ ("--timeout2", true)
    ∷ ("--maxlinelength", true)
    ∷ ("--allowsizemismatch", false)
    ∷ ("--nofoldersizes", false)
    ∷ ("--sslargs1", true)
    ∷ ("--maxbytespersecond", true)
    ∷ []

-- _ALLOWED_FLAGS[flag], or `none` where the flag is not in the table
unfoldable pub find_flag : String → List (String × Bool) → Option Bool
find_flag flag [] = none
find_flag flag ((name, takes_value) ∷ rest) =
    if str_eq flag name then some takes_value else find_flag flag rest

-- the words of _DANGEROUS
abbrev pub dangerous_words : List String
dangerous_words =
    "delete1" ∷ "expunge1" ∷ "delete1duplicates" ∷ "delete1emptyfolders" ∷ "noexpunge1" ∷ "search1"
    ∷ "pipemess" ∷ "pipemesscheck" ∷ "exec" ∷ "execafter" ∷ "execbefore" ∷ "host1" ∷ "host2"
    ∷ "user1" ∷ "user2" ∷ "passfile1" ∷ "passfile2" ∷ "password1" ∷ "password2" ∷ "tmpdir"
    ∷ "pidfile" ∷ "delete2" ∷ []

-- The characters that `re.IGNORECASE` takes for one another, as far as the words have them.
unfoldable pub fold_case : ℕ → ℕ
fold_case c =
    if leb 65 c && leb c 90
    then c + 32
    else if c == 0x130 || c == 0x131
    then 105
    else if c == 0x17f
    then 115
    else if c == 0x212a
    then 107
    else c

unfoldable pub starts_with_ignoring_case : String → String → Bool
unfolding fold_case
starts_with_ignoring_case s String.[] = true
starts_with_ignoring_case String.[] (String.◌∷◌ d p) = false
starts_with_ignoring_case (String.◌∷◌ c s) (String.◌∷◌ d p) =
    fold_case (code c) == code d && starts_with_ignoring_case s p

-- _DANGEROUS.match(flag)
unfoldable pub is_dangerous : String → Bool
unfolding starts_with_ignoring_case
is_dangerous flag = any (λ w. starts_with_ignoring_case flag ("--" ++ w)) dangerous_words

-- ImapsyncFlagError, by the message
pub data FlagError : Type 0 where
  not_parsed : FlagError
  no_flag dangerous not_allowed no_value : String → FlagError
  unexpected_value : String → String → FlagError

pub data Result (A : Type 0) : Type 0 where
  ok : A → Result A
  err : FlagError → Result A

abbrev pub map_ok : {A B : Type 0} → (A → B) → Result A → Result B
map_ok f (ok a) = ok (f a)
map_ok f (err e) = err e

-- the flag of a token, and the value behind the first "="
unfoldable pub split_flag : String → String × Option String
split_flag tok = elim (split_at b'=' tok) [ none ↦ (tok, none) | some (flag, v) ↦ (flag, some v) ]

-- What a token that stands where a flag is expected asks for.
pub data Parsed : Type 0 where
  alone : String → Parsed
  with_value : String → String → Parsed
  awaits_value : String → Parsed

unfoldable pub parse_known : String → Option String → Option Bool → Result Parsed
parse_known flag inline none = err (not_allowed flag)
parse_known flag (some v) (some true) = ok (with_value flag v)
parse_known flag none (some true) = ok (awaits_value flag)
parse_known flag (some v) (some false) = err (unexpected_value flag v)
parse_known flag none (some false) = ok (alone flag)

unfoldable pub parse_flag : String → Result Parsed
parse_flag tok =
    if not (starts_with tok "--")
    then err (no_flag tok)
    else let (flag, inline) = split_flag tok in
      if is_dangerous flag
      then err (dangerous flag)
      else parse_known flag inline (find_flag flag allowed_flags)

-- The loop over the tokens, by the flag that still awaits its value.
unfoldable pub scan : Option String → List String → Result (List String)
scan none [] = ok []
scan (some flag) [] = err (no_value flag)
scan (some flag) (v ∷ rest) = map_ok (λ argv. flag ∷ v ∷ argv) (scan none rest)
scan none (tok ∷ rest) = elim (parse_flag tok) [
  | err e ↦ err e
  | ok (alone flag) ↦ map_ok (λ argv. flag ∷ argv) (scan none rest)
  | ok (with_value flag v) ↦ map_ok (λ argv. flag ∷ v ∷ argv) (scan none rest)
  | ok (awaits_value flag) ↦ scan (some flag) rest
]

unfoldable pub validate_tokens : Option (List String) → Result (List String)
validate_tokens none = err not_parsed
validate_tokens (some tokens) = scan none tokens

unfoldable pub validate_custom_flags : String → Result (List String)
validate_custom_flags text =
    if str_eq text "" || str_eq (strip text) "" then ok [] else validate_tokens (split text)

-- models/settings.py, ImapsyncConfig
pub record ImapsyncConfig : Type 0 where
  pub verify_source_ssl : Bool
  pub add_missing_headers : Bool
  pub max_size_mb : ℕ
  pub timeout_seconds : ℕ
  pub allow_size_mismatch : Bool
  pub max_bandwidth_mbit : ℕ
  pub custom_flags : String

-- The flags of the structured options, without the custom ones.
unfoldable pub option_flags : ImapsyncConfig → List String
option_flags cfg =
    append
      ("--sslargs1"
        ∷ (if cfg.verify_source_ssl then "SSL_verify_mode=1" else "SSL_verify_mode=0")
        ∷ [])
      (append (if cfg.add_missing_headers then "--addheader" ∷ [] else []) (
        append
          (if ltb 0 cfg.max_size_mb
            then "--maxsize" ∷ show_ℕ (cfg.max_size_mb * 1024 * 1024) ∷ []
            else [])
          (append
            (if ltb 0 cfg.timeout_seconds
              then "--timeout" ∷ show_ℕ cfg.timeout_seconds ∷ []
              else [])
            (append (if cfg.allow_size_mismatch then "--allowsizemismatch" ∷ [] else []) (
              if ltb 0 cfg.max_bandwidth_mbit
              then "--maxbytespersecond" ∷ show_ℕ (cfg.max_bandwidth_mbit * 125000) ∷ []
              else [])))))

unfoldable pub build_global_flags : ImapsyncConfig → Result (List String)
build_global_flags cfg =
    map_ok (λ custom. append (option_flags cfg) custom) (validate_custom_flags cfg.custom_flags)
