-- ===== src/Regex/Alternatives.antt =====
-- Alternatives of optional parts.
use kwctoolkit.Prelude.{
  ℕ, ◌-◌, ◌≡◌, refl, sym, ap, ◌∙◌, arith, some, get_elem?, Bool, true, false, List, [], ◌∷◌, ◌++◌,
  append_assoc, append-nil, leb, Bytes, codes, length, length-append, take-append_length,
  drop-append_length, Outcome, returned, ◌>>=◌,
}
use kwctoolkit.Regex.{
  RegexStatus, standard, anything_but, anything_but_value, starts_blank, but_alternative, ends_in_s,
  maybe_status, Regex, maybe, insert_before_end, alternative_text, alternative,
}

insert_before_end-append :
    (a text tail : Bytes)
    → insert_before_end (length tail) text (a ++ tail) ≡ returned (a ++ text ++ tail)
unfolding insert_before_end
insert_before_end-append a text tail =
    let n : length (a ++ tail) - length tail ≡ length a = omega (arith, length-append a tail) in
    let e : leb (length tail) (length (a ++ tail)) ≡ true =
      rw (length-append a tail) (ground arith) in
    rw (e) (rw (n) (rw (take-append_length a tail, drop-append_length a tail) refl))

abbrev pub then_alternatives : List Bytes → Regex → Outcome Regex
then_alternatives [] r = returned r
then_alternatives (value ∷ values) r = alternative value r >>= then_alternatives values

-- Alternatives as they stand in an expression.
abbrev pub alternatives : List Bytes → Bytes
alternatives [] = []
alternatives (value ∷ values) = codes "|(" ++ value ++ codes ")" ++ alternatives values

module _ (no_case : Bool) where
  within : RegexStatus → RegexStatus → Bytes → Regex
  within reg_stat last_stat reg = record {
    reg_stat = reg_stat;
    last_stat = last_stat;
    no_case_sensitivity = no_case;
    reg = reg;
  }

  maybe_alternatives :
      (values : List Bytes) (a : Bytes)
      → then_alternatives values (within standard maybe_status (a ++ codes ")?"))
        ≡ returned (within standard maybe_status (a ++ alternatives values ++ codes ")?"))
  unfolding alternative alternative_text within
  maybe_alternatives [] a =
      ap (λ t. returned (within standard maybe_status (t ++ codes ")?"))) (sym (append-nil a))
  maybe_alternatives (value ∷ values) a =
      let text = codes "|(" ++ value ++ codes ")" in
      rw (insert_before_end-append a text (codes ")?")) (
        maybe_alternatives values (a ++ text)
        ∙ ap (λ t. returned (within standard maybe_status (t ++ codes ")?")))
            (append_assoc a text (alternatives values)))

-- An optional part with alternatives behind it, at least one, is one optional group: behind what
-- was there stand the value and all of the alternatives in order, in one pair of parentheses with
-- a question mark, and nothing is thrown.
pub maybe-then_alternatives :
    (r : Regex) (value first : Bytes) (values : List Bytes)
    → then_alternatives (first ∷ values) (maybe value r)
      ≡ returned (record {
        reg_stat = standard;
        last_stat = maybe_status;
        no_case_sensitivity = r.no_case_sensitivity;
        reg =
            r.reg
            ++ codes "(("
            ++ value
            ++ codes ")"
            ++ alternatives (first ∷ values)
            ++ codes ")?";
      })
unfolding alternative alternative_text within
maybe-then_alternatives r value first values =
    let a = r.reg ++ codes "((" ++ value ++ codes ")" in
    let text = codes "|(" ++ first ++ codes ")" in
    ap
      (λ t.
        then_alternatives (first ∷ values) (within r.no_case_sensitivity maybe_status standard t))
      (sym (append_assoc (r.reg ++ codes "((" ++ value) (codes ")") (codes ")?")))
    ∙ rw (insert_before_end-append a text (codes ")?")) (
        maybe_alternatives r.no_case_sensitivity values (a ++ text)
        ∙ ap (λ t. returned (within r.no_case_sensitivity standard maybe_status (t ++ codes ")?")))
            (append_assoc a text (alternatives values)))

get_elem?-end : (a : Bytes) (c : ℕ) → get_elem? (a ++ c ∷ []) (length (a ++ c ∷ []) - 1) ≡ some c
get_elem?-end a c =
    let e : length (a ++ c ∷ []) - 1 ≡ length a = omega (arith, length-append a (c ∷ [])) in
    rw (e) (at_end a)
  where
    at_end : (a : Bytes) → get_elem? (a ++ c ∷ []) (length a) ≡ some c
    at_end [] = refl
    at_end (x ∷ a) = at_end a

-- An alternative that does not start with a blank, behind a part that excludes blanks (a value that
-- starts with one), goes in front of that part, so that the two are not alternatives of each other
-- but the part stands behind both: what was there, "|(.*", the value, ")" and then "\S*". The test
-- that should tell this case apart looks at the last character, which is the quantifier.
pub anything_but_value-alternative :
    (r : Regex) (value other : Bytes)
    → starts_blank value ≡ true
    → starts_blank other ≡ false
    → alternative other (anything_but_value value r)
      ≡ returned (record {
        reg_stat = standard;
        last_stat = anything_but;
        no_case_sensitivity = r.no_case_sensitivity;
        reg = r.reg ++ (codes "|(.*" ++ other ++ codes ")") ++ codes "\\S*";
      })
unfolding alternative alternative_text but_alternative ends_in_s
anything_but_value-alternative r value other hb ho =
    let last : get_elem? (r.reg ++ codes "\\S*") (length (r.reg ++ codes "\\S*") - 1) ≡ some b'*' =
      ap (λ (t : Bytes). get_elem? t (length t - 1))
        (sym (append_assoc r.reg (codes "\\S") (codes "*")))
      ∙ get_elem?-end (r.reg ++ codes "\\S") b'*' in
    rw (hb, ho)
      (rw (last) (
        rw (insert_before_end-append r.reg (codes "|(.*" ++ other ++ codes ")") (codes "\\S*"))
          refl))
