-- ===== src/Heartbeat/Linux/Release.antt =====
-- The name of the system in `/etc/os-release`.
use orbis_agent_desktop.Base.{
  ◌≡◌, refl, ap, ◌∙◌, false, List, [], ◌∷◌, ◌++◌, some, Text, text, starts_with, All, ◌==◌,
  append-nil, append_assoc,
}
use orbis_agent_desktop.Base.Files.{Files}
use orbis_agent_desktop.Heartbeat.Linux.{
  lines_from, drop_front, drop_back, pretty_name, get_os_version,
}

-- A line of the file.
abbrev pub OneLine : Text → Type 0
OneLine line = All (λ c. (c == b'\n') ≡ false) line

-- The lines, each with its end, before the rest of a text.
abbrev pub unlines : List Text → Text → Text
unlines [] rest = rest
unlines (line ∷ lines) rest = line ++ b'\n' ∷ unlines lines rest

drop_back-quoted : (v : Text) → drop_back (v ++ b'"' ∷ []) ≡ v
unfolding drop_back
drop_back-quoted [] = refl
drop_back-quoted (c ∷ []) = refl
drop_back-quoted (c ∷ d ∷ v) = ap (λ l. c ∷ l) (drop_back-quoted (d ∷ v))

lines_from-line :
    (read line rest : Text)
    → OneLine line
    → lines_from read (line ++ b'\n' ∷ rest) ≡ (read ++ line) ∷ lines_from [] rest
unfolding lines_from
lines_from-line read [] rest h = rw (append-nil read) refl
lines_from-line read (c ∷ line) rest h = rw h.0 (
    lines_from-line (read ++ c ∷ []) line rest h.1
    ∙ ap (λ l. l ∷ lines_from [] rest) (append_assoc read (c ∷ []) line))

-- The value of the line, without its quotes.
pretty_name-quoted :
    (v : Text) (lines : List Text)
    → pretty_name ((text "PRETTY_NAME=\"" ++ (v ++ b'"' ∷ [])) ∷ lines) ≡ v
unfolding pretty_name drop_front starts_with text
pretty_name-quoted v lines = drop_back-quoted v

pretty_name-lines :
    (before : List Text) (v rest : Text)
    → All (λ line. OneLine line × (starts_with (text "PRETTY_NAME=") line ≡ false)) before
    → OneLine (text "PRETTY_NAME=\"" ++ (v ++ b'"' ∷ []))
    → pretty_name (
        lines_from []
          (unlines before ((text "PRETTY_NAME=\"" ++ (v ++ b'"' ∷ [])) ++ b'\n' ∷ rest)))
      ≡ v
unfolding pretty_name
pretty_name-lines [] v rest h k =
    rw (lines_from-line [] (text "PRETTY_NAME=\"" ++ (v ++ b'"' ∷ [])) rest k)
      (pretty_name-quoted v (lines_from [] rest))
pretty_name-lines (line ∷ before) v rest (h, hs) k =
    rw
      (lines_from-line [] line
        (unlines before ((text "PRETTY_NAME=\"" ++ (v ++ b'"' ∷ [])) ++ b'\n' ∷ rest)) h.0)
      (rw h.1 (pretty_name-lines before v rest hs k))

-- Where the file has a line that gives the name in quotes, and no line before it does, the name is
-- what is read, whatever is in the rest of the file.
pub get_os_version_lem :
    (fs : Files) (before : List Text) (v rest : Text)
    → All (λ line. OneLine line × (starts_with (text "PRETTY_NAME=") line ≡ false)) before
    → OneLine (text "PRETTY_NAME=\"" ++ (v ++ b'"' ∷ []))
    → fs (text "/etc/os-release")
      ≡ some (unlines before ((text "PRETTY_NAME=\"" ++ (v ++ b'"' ∷ [])) ++ b'\n' ∷ rest))
    → get_os_version fs ≡ v
unfolding get_os_version
get_os_version_lem fs before v rest h k e =
    rw (e, get_os_version) (pretty_name-lines before v rest h k)
