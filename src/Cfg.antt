-- ===== src/Cfg.antt =====
-- LinuxGSM's configuration files: cfgValue, cfgValues and updateCfgLines of backend/lgsmcfg.go. A file is
-- its text; reading and writing it, and which files there are, is outside. The values to write are a
-- table; every key is looked up once, so a range over it is not needed.
pub mod Lines
pub mod Updates
pub mod RoundTrip
mod Examples
use linuxgsm_dashboard.Base.{
  ℕ, ◌+◌, Text, codes, List, [], ◌∷◌, ◌++◌, Bool, true, false, not, ◌&&◌, ◌||◌, Option, none, some,
  ltb, leb, ◌==◌, if◌then◌else◌, eqt, text_mem, split_on, any_of,
}
use linuxgsm_dashboard.Base.Tables.{Table, lookup, store}
use linuxgsm_dashboard.Ids.{is_lower, is_upper, is_digit}
use linuxgsm_dashboard.Totp.{trim_space}

abbrev pub key_first : ℕ → Bool
key_first c = is_lower c || (is_upper c || c == b'_')

abbrev pub key_rest : ℕ → Bool
key_rest c = key_first c || is_digit c

-- `\s` of Go's regular expressions
abbrev pub re_space : ℕ → Bool
re_space c = c == 9 || (c == 10 || (c == 12 || (c == 13 || c == 32)))

abbrev pub onto_key : ℕ → Option (Text × Text) → Option (Text × Text)
onto_key c none = none
onto_key c (some (key, value)) = some (c ∷ key, value)

-- `[A-Za-z0-9_]*=(.*)$`
unfoldable pub rest_of_key : Text → Option (Text × Text)
rest_of_key [] = none
rest_of_key (c ∷ s) =
    if c == b'=' then some ([], s) else if key_rest c then onto_key c (rest_of_key s) else none

unfoldable pub key_and_value : Text → Option (Text × Text)
key_and_value [] = none
key_and_value (c ∷ s) = if key_first c then onto_key c (rest_of_key s) else none

unfoldable pub skip_space : Text → Text
skip_space [] = []
skip_space (c ∷ s) = if re_space c then skip_space s else c ∷ s

unfoldable pub trim_cr : Text → Text
trim_cr [] = []
trim_cr (c ∷ s) = elim (trim_cr s) [ [] ↦ if c == 13 then [] else c ∷ [] | d ∷ t ↦ c ∷ d ∷ t ]

-- `^\s*([A-Za-z_][A-Za-z0-9_]*)=(.*)$` on a line without its line feed, the trailing CRs cut off
unfoldable pub assignment : Text → Option (Text × Text)
assignment line = key_and_value (skip_space (trim_cr line))

-- What a backslash takes the meaning from inside double quotes.
abbrev pub escapable : ℕ → Bool
escapable c = c == b'"' || (c == b'\\' || (c == b'$' || c == b'`'))

-- The text inside double quotes, with its escapes resolved.
unfoldable pub double_quoted : Text → Text
double_quoted [] = []
double_quoted (c ∷ []) = if c == b'"' then [] else c ∷ []
double_quoted (c ∷ d ∷ s) = elim (c == b'\\' && escapable d) [
  | true ↦ d ∷ double_quoted s
  | false ↦ elim (c == b'"') [ true ↦ [] | false ↦ c ∷ double_quoted (d ∷ s) ]
]

unfoldable pub single_quoted : Text → Text
single_quoted [] = []
single_quoted (c ∷ s) = if c == b'\'' then [] else c ∷ single_quoted s

unfoldable pub unquoted : Text → Text
unquoted [] = []
unquoted (c ∷ s) = if c == b' ' || (c == 9 || (c == b'#' || c == b';')) then [] else c ∷ unquoted s

unfoldable pub value_of : Text → Text
value_of [] = []
value_of (c ∷ s) =
    if c == b'"' then double_quoted s else if c == b'\'' then single_quoted s else unquoted (c ∷ s)

unfoldable pub cfg_value : Text → Text
cfg_value raw = value_of (trim_space raw)

abbrev pub with_assignment : Option (Text × Text) → Table Text → Table Text
with_assignment none values = values
with_assignment (some (key, raw)) values = store key (cfg_value raw) values

unfoldable pub values_of_lines : List Text → Table Text → Table Text
values_of_lines [] values = values
values_of_lines (line ∷ lines) values =
    values_of_lines lines (with_assignment (assignment line) values)

-- The last assignment of a key wins.
unfoldable pub cfg_values : Text → Table Text
cfg_values content = values_of_lines (split_on 10 content) []

-- key="value"
abbrev pub written_line : Text → Text → Text
written_line key value = key ++ (b'=' ∷ b'"' ∷ (value ++ (b'"' ∷ [])))

-- What becomes of a line, by its key, and the keys seen so far with it.
unfoldable pub updated_line :
    Table Text → Bool → List Text → Text → Option (Text × Text) → List Text × List Text
updated_line values keep_empty seen line none = (line ∷ [], seen)
updated_line values keep_empty seen line (some (key, raw)) = elim (lookup key values) [
  | none ↦ (line ∷ [], seen)
  | some value ↦
      if text_mem key seen || (eqt value [] && not keep_empty)
      then ([], seen)
      else (written_line key value ∷ [], key ∷ seen)
]

-- The loop over the lines: the new lines, and the keys that were seen.
unfoldable pub update_lines : Table Text → Bool → List Text → List Text → List Text × List Text
update_lines values keep_empty seen [] = ([], seen)
update_lines values keep_empty seen (line ∷ lines) =
    let (out, seen') = updated_line values keep_empty seen line (assignment line) in
    let (rest, seen'') = update_lines values keep_empty seen' lines in (out ++ rest, seen'')

-- The lines for keys that were not seen, in the given order.
unfoldable pub missing_lines : Table Text → Bool → List Text → List Text → List Text
missing_lines values keep_empty seen [] = []
missing_lines values keep_empty seen (key ∷ order) = elim (lookup key values) [
  | none ↦ missing_lines values keep_empty seen order
  | some value ↦
      if not (text_mem key seen) && (not (eqt value []) || keep_empty)
      then written_line key value ∷ missing_lines values keep_empty seen order
      else missing_lines values keep_empty seen order
]

-- Empty lines at the end are dropped.
unfoldable pub drop_blank_end : List Text → List Text
drop_blank_end [] = []
drop_blank_end (line ∷ lines) = elim (drop_blank_end lines) [
  | [] ↦ if eqt line [] then [] else line ∷ []
  | l ∷ ls ↦ line ∷ l ∷ ls
]

-- strings.Join(lines, "\n")
unfoldable pub join_lines : List Text → Text
join_lines [] = []
join_lines (line ∷ []) = line
join_lines (line ∷ l ∷ ls) = line ++ (10 ∷ join_lines (l ∷ ls))

unfoldable pub update_cfg_lines : Text → Table Text → List Text → Bool → Bool → Text
update_cfg_lines content values order keep_empty append_missing =
    let (out, seen) = update_lines values keep_empty [] (split_on 10 content) in
    if append_missing
    then join_lines (drop_blank_end out ++ missing_lines values keep_empty seen order) ++ (10 ∷ [])
    else join_lines out
