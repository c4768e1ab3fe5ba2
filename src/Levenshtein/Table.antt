-- ===== src/Levenshtein/Table.antt =====
-- The two columns hold distances of prefixes, and the result is the least number of edits.
use kwctoolkit.Prelude.{
  ℕ, suc, ◌+◌, ◌^◌, ◌≤◌, ◌<◌, ◌≡◌, refl, ap, [], ◌∷◌, arith, Bytes, length, List, get_or,
}
use kwctoolkit.Levenshtein.{iota, wrap, min3, cost, inner_loop, outer_loop, levenshtein_distance}
use kwctoolkit.Levenshtein.Edits.{
  Edits, reverse_onto, Edits-reverse, Edits-reversed, distance, distance-nil, distance-le,
  distance-Edits, distance-least,
}

-- The column for the prefix of s1 that is `ra` reversed, from the prefix `rb` of s2 on.
abbrev column : Bytes → Bytes → Bytes → List ℕ
column ra rb [] = distance ra rb ∷ []
column ra rb (b ∷ bs) = distance ra rb ∷ column ra (b ∷ rb) bs

iota-column : (k : ℕ) (rb bs : Bytes) → k ≡ length rb → iota k (suc (length bs)) ≡ column [] rb bs
unfolding iota distance
iota-column k rb [] h = ap (λ n. n ∷ []) h
iota-column k rb (b ∷ bs) h = ground (arith, iota-column (suc k) (b ∷ rb) bs)

-- Texts whose distances, and one more, fit 32 bits.
abbrev pub Fits : ℕ → Type 0
Fits n = suc n < 2 ^ 32

wrap-fits : (x : ℕ) → x < 2 ^ 32 → wrap x ≡ x
wrap-fits x h = omega arith

cost-le : (a b : ℕ) → cost a b ≤ 1
cost-le a b = ground arith

-- One cell, computed without overflow.
cell :
    (a b : ℕ) (ra rb : Bytes)
    → Fits (suc (length ra) + suc (length rb))
    → min3
        (wrap (distance ra (b ∷ rb) + 1))
        (wrap (distance (a ∷ ra) rb + 1))
        (wrap (distance ra rb + cost a b))
      ≡ distance (a ∷ ra) (b ∷ rb)
cell a b ra rb h =
    rw
      (
        wrap-fits (distance ra (b ∷ rb) + 1) (omega (arith, distance-le ra (b ∷ rb))),
        wrap-fits (distance (a ∷ ra) rb + 1) (omega (arith, distance-le (a ∷ ra) rb)),
        wrap-fits (distance ra rb + cost a b) (omega (arith, distance-le ra rb, cost-le a b)),
      )
      (unfold distance in refl)

inner_loop-column :
    (a : ℕ) (ra rb bs : Bytes)
    → Fits (suc (length ra) + (length rb + length bs))
    → distance (a ∷ ra) rb ∷ inner_loop a (distance (a ∷ ra) rb) (column ra rb bs) bs
      ≡ column (a ∷ ra) rb bs
unfolding inner_loop
inner_loop-column a ra rb [] h = refl
inner_loop-column a ra rb (b ∷ []) h = rw (cell a b ra rb (omega arith))
inner_loop-column a ra rb (b ∷ c ∷ bs) h =
    rw (cell a b ra rb (omega arith))
      (ap (λ l. distance (a ∷ ra) rb ∷ l) (inner_loop-column a ra (b ∷ rb) (c ∷ bs) (omega arith)))

outer_loop-column :
    (i : ℕ) (ra s1 s2 : Bytes)
    → i ≡ length ra
    → Fits (length ra + length s1 + length s2)
    → outer_loop i (column ra [] s2) s1 s2 ≡ column (reverse_onto s1 ra) [] s2
unfolding outer_loop
outer_loop-column i ra [] s2 e h = refl
outer_loop-column i ra (a ∷ s1) s2 e h =
    let first : wrap (i + 1) ≡ distance (a ∷ ra) [] = omega (arith, distance-nil (a ∷ ra)) in
    rw (first, inner_loop-column a ra [] s2 (omega arith))
      (outer_loop-column (i + 1) (a ∷ ra) s1 s2 (omega arith) (omega arith))

get_or-column :
    (ra rb bs : Bytes) → get_or (column ra rb bs) (length bs) 0 ≡ distance ra (reverse_onto bs rb)
get_or-column ra rb [] = refl
get_or-column ra rb (b ∷ bs) = get_or-column ra (b ∷ rb) bs

distance_of_prefixes :
    (s1 s2 : Bytes)
    → Fits (length s1 + length s2)
    → levenshtein_distance s1 s2 ≡ distance (reverse_onto s1 []) (reverse_onto s2 [])
unfolding levenshtein_distance
distance_of_prefixes s1 s2 h =
    rw (iota-column 0 [] s2 refl, outer_loop-column 0 [] s1 s2 refl (omega arith))
      (get_or-column (reverse_onto s1 []) [] s2)

-- For texts whose lengths together are below 2 ^ 32 - 1, LevenshteinDistance is the least
-- number of edits: so many make the second text of the first, and fewer do not.
pub levenshtein_distance-least :
    (s1 s2 : Bytes)
    → Fits (length s1 + length s2)
    → Edits s1 s2 (levenshtein_distance s1 s2)
      × ((n : ℕ) → Edits s1 s2 n → levenshtein_distance s1 s2 ≤ n)
levenshtein_distance-least s1 s2 h = rw (distance_of_prefixes s1 s2 h) (
  Edits-reversed s1 s2 _ (distance-Edits (reverse_onto s1 []) (reverse_onto s2 [])),
  λ n d. distance-least (Edits-reverse d),
)
