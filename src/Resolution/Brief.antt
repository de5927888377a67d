-- ===== src/Resolution/Brief.antt =====
-- internal/resolution/brief.go and internal/upkeep/brief.go: the escaping of a fence's tags around
-- untrusted text. A text is its bytes, as Go's strings are.
pub mod Fence
mod Tests
use autophage.Base.{
  ℕ, zero, suc, ◌+◌, ◌-◌, Bool, true, false, ◌&&◌, List, [], ◌∷◌, ◌++◌, length, leb, ◌==◌,
  if◌then◌else◌,
}

abbrev pub Bytes : Type 0
Bytes = List ℕ

-- The lower case of an ASCII letter; any other byte is itself.
abbrev pub fold : ℕ → ℕ
fold c = if leb b'A' c && leb c b'Z' then c + 32 else c

-- Does the text begin with `old`, but for the case of ASCII letters. On a window of as many bytes as
-- the ASCII text `old` has, this is strings.EqualFold: a rune outside of ASCII that folds to an
-- ASCII letter takes more than one byte, so that the window has fewer runes than `old`.
unfoldable pub starts_with : Bytes → Bytes → Bool
starts_with [] s = true
starts_with (o ∷ old) [] = false
starts_with (o ∷ old) (c ∷ s) = (fold o == fold c) && starts_with old s

-- The loop of replaceFold. `skip` bytes of a match are still to be passed over, which is what
-- `i += len(old)` does.
unfoldable pub replace_from : Bytes → Bytes → ℕ → Bytes → Bytes
unfolding starts_with
replace_from old replacement skip [] = []
replace_from old replacement (suc skip) (c ∷ s) = replace_from old replacement skip s
replace_from old replacement zero (c ∷ s) = elim (starts_with old (c ∷ s)) [
  | true ↦ replacement ++ replace_from old replacement (length old - 1) s
  | false ↦ c ∷ replace_from old replacement zero s
]

-- replaceFold replaces every occurrence of `old`, but for the case of letters.
abbrev pub replace_fold : Bytes → Bytes → Bytes → Bytes
replace_fold s old replacement = replace_from old replacement zero s

-- "<" and "</", and their escapes "&lt;" and "&lt;/".
abbrev pub open_tag : Bytes → Bytes
open_tag tag = b'<' ∷ tag

abbrev pub close_tag : Bytes → Bytes
close_tag tag = b'<' ∷ b'/' ∷ tag

abbrev pub escaped_open : Bytes → Bytes
escaped_open tag = b'&' ∷ b'l' ∷ b't' ∷ b';' ∷ tag

abbrev pub escaped_close : Bytes → Bytes
escaped_close tag = b'&' ∷ b'l' ∷ b't' ∷ b';' ∷ b'/' ∷ tag

-- escapeTag entity-escapes both forms of a tag.
abbrev pub escape_tag : Bytes → Bytes → Bytes
escape_tag tag s =
    replace_fold (replace_fold s (close_tag tag) (escaped_close tag)) (open_tag tag)
      (escaped_open tag)

abbrev pub issue_tag : Bytes
issue_tag = b'i' ∷ b's' ∷ b's' ∷ b'u' ∷ b'e' ∷ []

-- EscapeIssueTag, which spells the tag out.
abbrev pub escape_issue_tag : Bytes → Bytes
escape_issue_tag s = escape_tag issue_tag s
