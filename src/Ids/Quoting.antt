-- ===== src/Ids/Quoting.antt =====
-- What a shell reads back from ShellQuote of backend/security.go.
use linuxgsm_dashboard.Base.{
  ℕ, ◌≡◌, refl, Text, [], ◌∷◌, ◌++◌, Bool, false, ◌||◌, Option, none, some, ◌==◌, if◌then◌else◌,
  Bool-cases, inl, inr, ==_iff, ap, sym,
}
use linuxgsm_dashboard.Ids.{is_alnum, escape_quotes, shell_quote}

-- A POSIX shell reading one word: outside quotes a backslash takes the next byte literally, a single
-- quote opens a quoted part, and a byte that may have a meaning to the shell ends the reading with
-- `none`; inside single quotes every byte but the closing quote is literal.
pub data Mode : Type 0 where
  bare escaped quoted : Mode

abbrev pub plain_byte : ℕ → Bool
plain_byte c = is_alnum c || (c == b'_' || (c == b'-' || (c == b'.' || c == b'/')))

abbrev pub prepend : ℕ → Option Text → Option Text
prepend c none = none
prepend c (some w) = some (c ∷ w)

unfoldable pub read_word : Mode → Text → Option Text
read_word bare [] = some []
read_word escaped [] = none
read_word quoted [] = none
read_word bare (c ∷ s) =
    let opened = read_word quoted s in
    let literal = read_word escaped s in
    let plain = read_word bare s in
    if c == b'\''
    then opened
    else if c == b'\\'
    then literal
    else if plain_byte c
    then prepend c plain
    else none
read_word escaped (c ∷ s) = prepend c (read_word bare s)
read_word quoted (c ∷ s) =
    let closed = read_word bare s in
    let literal = read_word quoted s in if c == b'\'' then closed else prepend c literal

-- `'\''` inside quotes: the quote closes, a literal quote follows, and a quote opens again.
read_quote :
    (t : Text)
    → read_word quoted (b'\'' ∷ b'\\' ∷ b'\'' ∷ b'\'' ∷ t) ≡ prepend b'\'' (read_word quoted t)
unfolding read_word
read_quote t = refl

read_literal :
    (c : ℕ) (t : Text)
    → (c == b'\'') ≡ false
    → read_word quoted (c ∷ t) ≡ prepend c (read_word quoted t)
unfolding read_word
read_literal c t e = rw e

read_escaped_quotes : (s : Text) → read_word quoted (escape_quotes s ++ (b'\'' ∷ [])) ≡ some s
unfolding escape_quotes
read_escaped_quotes [] = unfold read_word in refl
read_escaped_quotes (c ∷ s) = elim (Bool-cases (c == b'\'')) [
  | inl e ↦
      rw (e, read_quote (escape_quotes s ++ (b'\'' ∷ [])), read_escaped_quotes s)
        (ap (λ d. some (d ∷ s)) (sym ((==_iff c b'\'').0 e)))
  | inr e ↦ rw (e, read_literal c (escape_quotes s ++ (b'\'' ∷ [])) e, read_escaped_quotes s) refl
]

-- The shell reads a quoted text back as that text, as one word, whatever bytes it holds.
pub read_word-shell_quote : (s : Text) → read_word bare (shell_quote s) ≡ some s
unfolding shell_quote
read_word-shell_quote s = unfold read_word in read_escaped_quotes s
