-- ===== src/Strings/Split/Trimming.antt =====
-- SplitString with whitespace trimmed: when it throws, and what it returns otherwise.
use kwctoolkit.Prelude.{
  ◌≡◌, refl, ◌∙◌, inl, inr, false, List, [], ◌∷◌, if◌then◌else◌, Bool-cases, Bool, ◌&&◌, ◌||◌, not,
  Bytes, is_empty, returned, thrown,
}
use kwctoolkit.Strings.Split.{
  SplitResult, tidy, is_kept, split_string, whitespace_trim, whitespace_ascii,
}
use kwctoolkit.Strings.Trim.{trim_all, all_of, trimmed}
use kwctoolkit.Strings.Trim.Laws.{trim_string-trimmed}
use kwctoolkit.Strings.Split.Laws.{split_on, collect, split_string-collect}

-- A piece that trimming cannot take: nothing but whitespace, and at least one character.
abbrev pub is_blank : Bytes → Bool
is_blank p = not (is_empty p) && all_of whitespace_ascii p

abbrev pub any_blank : List Bytes → Bool
any_blank [] = false
any_blank (p ∷ ps) = is_blank p || any_blank ps

abbrev pub tidied : SplitResult → List Bytes → List Bytes
tidied want [] = []
tidied want (p ∷ ps) =
    let q = trimmed p whitespace_ascii trim_all in
    let rest = tidied want ps in if is_kept want q then q ∷ rest else rest

collect-trim :
    (want : SplitResult) (ps : List Bytes)
    → collect whitespace_trim want ps ≡ (if any_blank ps then thrown else returned (tidied want ps))
unfolding tidy
collect-trim want [] = refl
collect-trim want (p ∷ ps) =
    rw (trim_string-trimmed p whitespace_ascii trim_all, collect-trim want ps)
      (elim (Bool-cases (is_blank p)) [
        | inl b ↦ rw b
        | inr b ↦ rw b (elim (Bool-cases (any_blank ps)) [ inl c ↦ rw c | inr c ↦ rw c ])
      ])

-- With whitespace trimmed, SplitString throws exactly if some piece is blank; otherwise it
-- returns the trimmed pieces in order, the empty ones only if all are wanted.
pub split_string-trim :
    (input sep : Bytes) (want : SplitResult)
    → split_string input sep whitespace_trim want ≡ (
        if is_empty input
        then returned []
        else if any_blank (split_on sep input)
        then thrown
        else returned (tidied want (split_on sep input)))
split_string-trim [] sep want = split_string-collect whitespace_trim want [] sep
split_string-trim (x ∷ xs) sep want =
    split_string-collect whitespace_trim want (x ∷ xs) sep
    ∙ collect-trim want (split_on sep (x ∷ xs))
