-- ===== src/Panel/Domains/Names.antt =====
-- `_DOMAIN_RE` of routers/domains.py and vm2_api/vm2_api/routers/domains.py: the names of domains.
use Prim.Native.Char.{Char, code}
use Prim.Native.String.{count, ◌++◌}
use mail_sync_portal.Base.{
  ◌==◌, ◌≡◌, refl, String, Bool, true, false, ◌&&◌, ◌||◌, str_eq, leb, if◌then◌else◌,
}

-- [a-z], [a-z0-9]
abbrev pub is_lower : Char → Bool
is_lower c = leb 97 (code c) && leb (code c) 122

abbrev pub is_alnum : Char → Bool
is_alnum c = is_lower c || leb 48 (code c) && leb (code c) 57

unfoldable pub all_chars : (Char → Bool) → String → Bool
all_chars p String.[] = true
all_chars p (String.◌∷◌ c s) = p c && all_chars p s

-- What follows the first letter of a label, which ends with a letter or a digit.
unfoldable pub ends_label : String → Bool
ends_label String.[] = true
ends_label (String.◌∷◌ c String.[]) = is_alnum c
ends_label (String.◌∷◌ c s) = (is_alnum c || code c == b'-') && ends_label s

-- [a-z0-9]([a-z0-9-]{0,61}[a-z0-9])?
unfoldable pub is_label : String → Bool
is_label String.[] = false
is_label (String.◌∷◌ c s) = is_alnum c && (leb (count s) 62 && ends_label s)

-- [a-z]{2}
unfoldable pub is_top : String → Bool
is_top s = leb 2 (count s) && all_chars is_lower s

-- The labels before the last dot, each with its dot, then the top level; `seen` tells whether there was
-- a label, and `label` is the text since the last dot.
unfoldable pub are_labels : Bool → String → String → Bool
are_labels seen label String.[] = seen && is_top label
are_labels seen label (String.◌∷◌ c s) =
    let more = are_labels seen (label ++ String.◌∷◌ c "") s in
    let next = are_labels true "" s in if code c == b'.' then is_label label && next else more

-- `$` stands also before a line feed at the end.
unfoldable pub chop_line : String → String
chop_line String.[] = ""
chop_line (String.◌∷◌ c String.[]) = if code c == 10 then "" else String.◌∷◌ c ""
chop_line (String.◌∷◌ c s) = String.◌∷◌ c (chop_line s)

-- _DOMAIN_RE.match(s)
unfoldable pub is_domain_name : String → Bool
is_domain_name s =
    let name = chop_line s in
    leb 1 (count name) && (leb (count name) 253 && are_labels false "" name)

-- s.rstrip(".")
unfoldable pub strip_dots : String → String
strip_dots String.[] = ""
strip_dots (String.◌∷◌ c s) =
    let rest = strip_dots s in if str_eq rest "" && code c == b'.' then "" else String.◌∷◌ c rest

samples :
    (is_domain_name "example.net" ≡ true)
    × (is_domain_name "a-.net" ≡ false)
    × (is_domain_name "net" ≡ false)
    × (is_domain_name "a.b.n" ≡ false)
    × (is_domain_name "a..net" ≡ false)
    × (is_domain_name "x.y.net\n" ≡ true)
    × (strip_dots "a.net.." ≡ "a.net")
unfolding is_domain_name are_labels is_top is_label ends_label all_chars chop_line strip_dots
samples = (refl, refl, refl, refl, refl, refl, refl)
