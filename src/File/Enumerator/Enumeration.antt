-- ===== src/File/Enumerator/Enumeration.antt =====
-- The calls of FileEnumerator::next in kwctoolkit/file/file_enumerator.cc give a listing.
use kwctoolkit.Prelude.{
  ℕ, zero, suc, ◌+◌, ◌≤◌, ◌<◌, ◌≡◌, refl, sym, ◌∙◌, inl, inr, arith, false, Bool-cases,
  Option-cases, List, [], ◌∷◌, ◌++◌, map, ltb, length, get_or, drop, drop-all, Bytes, Outcome,
  returned, ◌>>=◌,
}
use mathlib.Core.Path.{subst}
use kwctoolkit.File.Path.{strip_trailing_separators}
use kwctoolkit.File.Directories.{reversed}
use kwctoolkit.File.Enumerator.{
  FileInfo, System, Options, Enumerator, file_enumerator, read_directory, no_info, next_loop, next,
}
use kwctoolkit.File.Enumerator.Listing.{
  path_of, keep, is_shown, is_entered, entries_of, shown, entered, Walks, done, visit, scan-shown,
}

drop-get_or :
    (entries : List FileInfo) (i : ℕ)
    → i < length entries
    → drop i entries ≡ get_or entries i no_info ∷ drop (i + 1) entries
drop-get_or [] i h = absurd (omega arith)
drop-get_or (x ∷ xs) zero h = refl
drop-get_or (x ∷ xs) (suc i) h =
    let e : suc i + 1 ≡ suc (i + 1) = omega arith in rw (e) (drop-get_or xs i (omega arith))

-- The path that a call gives of those to come, and those that are left.
abbrev pub first : List Bytes → Bytes
first [] = []
first (path ∷ paths) = path

abbrev pub rest_of : List Bytes → List Bytes
rest_of [] = []
rest_of (path ∷ paths) = paths

module _ (system : System) (options : Options) where
  abbrev state : List FileInfo → ℕ → Bytes → List Bytes → Enumerator
  state entries current root pending = record {
    dir_entries = entries;
    current_dir_entry = current;
    root_path = root;
    pending_paths = pending;
  }

  -- The paths that an enumerator has still to give, with so many directories to visit.
  abbrev pub Upcoming : ℕ → Enumerator → List Bytes → Type 0
  Upcoming n e paths =
      (listing : List Bytes) × Walks system options n e.pending_paths listing
      × (paths
          ≡ map (path_of e.root_path) (drop (e.current_dir_entry + 1) e.dir_entries) ++ listing)

  abbrev Yields : ℕ → List Bytes → Outcome (Bytes × Enumerator) → Type 0
  Yields n paths o =
      (m : ℕ) × (e : Enumerator) × (o ≡ returned (first paths, e))
      × Upcoming m e (rest_of paths)
      × (m ≤ n)

  abbrev after : List FileInfo → ℕ → Bytes → List Bytes → List Bytes
  after entries current root listing = map (path_of root) (drop current entries) ++ listing

  abbrev LoopYields : ℕ → Type 0
  LoopYields fuel =
      (n : ℕ) (entries : List FileInfo) (current : ℕ) (root : Bytes) (pending listing : List Bytes)
      → Walks system options n pending listing
      → n < fuel
      → Yields n (after entries current root listing)
          (next_loop system options fuel (state entries current root pending))

  abbrev enter : Bytes → List FileInfo → List Bytes → List Bytes
  enter root es pending =
      reversed (map (path_of root) (keep (is_entered system options root) es)) pending

  abbrev show : Bytes → List FileInfo → List Bytes → List Bytes
  show root es listing = after (keep (is_shown system options root) es) 0 root listing

  later :
      (n : ℕ) (paths : List Bytes) (o o' : Outcome (Bytes × Enumerator))
      → o' ≡ o
      → Yields n paths o
      → Yields (suc n) paths o'
  later n paths o o' same (m, e, gives, up, le) = (m, e, same ∙ gives, up, omega arith)

  -- A round with nothing left of a directory goes to the next one.
  visit-Yields :
      (fuel n : ℕ) (entries : List FileInfo) (current : ℕ) (root top : Bytes)
      (rest listing : List Bytes)
      → Walks system options n
          (reversed (entered system options (strip_trailing_separators top)) rest)
          listing
      → n < fuel
      → length entries ≤ current
      → LoopYields fuel
      → Yields
          (suc n)
          (after
            (shown system options (strip_trailing_separators top))
            0
            (strip_trailing_separators top)
            listing)
          (next_loop system options (suc fuel) (state entries current root (top ∷ rest)))
  unfolding next_loop
  visit-Yields fuel n entries current root top rest listing w h l ih =
      let root' = strip_trailing_separators top in
      let beyond : ltb current (length entries) ≡ false = ground arith in
      let o = next_loop system options (suc fuel) (state entries current root (top ∷ rest)) in
      elim (Option-cases (read_directory system options root')) [
        | inl unreadable ↦
            let none_there : entries_of system options root' ≡ [] =
              rw (unreadable, entries_of) refl in
            let w' =
              subst (λ es. Walks system options n (enter root' es rest) listing) none_there w in
            subst (λ es. Yields (suc n) (show root' es listing) o) (sym none_there)
              (later n listing _ o (rw (beyond, next_loop, unreadable) refl) (
                subst
                  (λ d.
                    Yields n (map (path_of root') d ++ listing)
                      (next_loop system options fuel (state entries current root' rest)))
                  (drop-all current entries l) (ih n entries current root' rest listing w' h)))
        | inr (infos, readable) ↦
            let there : entries_of system options root' ≡ infos = rw (readable, entries_of) refl in
            let w' = subst (λ es. Walks system options n (enter root' es rest) listing) there w in
            subst (λ es. Yields (suc n) (show root' es listing) o) (sym there)
              (later n (show root' infos listing) _ o
                (rw (beyond, next_loop, readable, scan-shown system options root' infos rest [])
                  refl)
                (ih n (keep (is_shown system options root') infos) 0 root' (enter root' infos rest)
                  listing w' h))
      ]

  next_directory :
      (fuel : ℕ) {n : ℕ} (entries : List FileInfo) (current : ℕ) (root : Bytes)
      {pending listing : List Bytes}
      → n < suc fuel
      → length entries ≤ current
      → LoopYields fuel
      → Walks system options n pending listing
      → Yields n listing (next_loop system options (suc fuel) (state entries current root pending))
  unfolding next_loop
  next_directory fuel entries current root h l ih done =
      let beyond : ltb current (length entries) ≡ false = ground arith in
      let none_left = drop-all (current + 1) entries (omega arith) in
      (
        0,
        state entries current root [],
        rw (beyond, next_loop) refl,
        ([], done, rw (none_left) refl),
        omega arith,
      )
  next_directory fuel entries current root h l ih (visit n top rest listing w) =
      visit-Yields fuel n entries current root top rest listing w (omega arith) l ih

  next_loop-Yields : (fuel : ℕ) → LoopYields fuel
  unfolding next_loop
  next_loop-Yields zero n entries current root pending listing w h = absurd (omega arith)
  next_loop-Yields (suc fuel) n entries current root pending listing w h =
      elim (Bool-cases (ltb current (length entries))) [
        | inl within ↦
            let l : current < length entries = ground arith in
            rw (drop-get_or entries current l) (
              n,
              state entries current root pending,
              rw (within, next_loop) refl,
              (listing, w, refl),
              omega arith,
            )
        | inr beyond ↦
            let l : length entries ≤ current = ground arith in
            rw (drop-all current entries l)
              (next_directory fuel entries current root h l (next_loop-Yields fuel) w)
      ]

  next-Upcoming :
      (fuel n : ℕ) (e : Enumerator) (paths : List Bytes)
      → Upcoming n e paths
      → n < fuel
      → Yields n paths (next system options fuel e)
  unfolding next
  next-Upcoming fuel n e paths (listing, w, same) h =
      subst (λ ps. Yields n ps (next system options fuel e)) (sym same)
        (next_loop-Yields fuel n e.dir_entries (e.current_dir_entry + 1) e.root_path e.pending_paths
          listing w h)

  -- Calls of next one after another.
  unfoldable pub nexts : ℕ → ℕ → Enumerator → Outcome (List Bytes)
  unfolding next
  nexts fuel zero e = returned []
  nexts fuel (suc k) e = do
    r ← next system options fuel e
    paths ← nexts fuel k r.1
    returned (r.0 ∷ paths)

  -- As many paths, and empty ones behind them.
  abbrev pub padded : ℕ → List Bytes → List Bytes
  padded zero paths = []
  padded (suc k) paths = first paths ∷ padded k (rest_of paths)

  nexts-Upcoming :
      (fuel k n : ℕ) (e : Enumerator) (paths : List Bytes)
      → Upcoming n e paths
      → n < fuel
      → nexts fuel k e ≡ returned (padded k paths)
  unfolding nexts
  nexts-Upcoming fuel zero n e paths up h = refl
  nexts-Upcoming fuel (suc k) n e paths up h =
      let (m, e', gives, up', le) = next-Upcoming fuel n e paths up h in
      let later_ones = nexts-Upcoming fuel k m e' (rest_of paths) up' (omega arith) in
      rw (gives, later_ones) refl

  -- On a root path with a listing, that is, on a finite tree of directories, the calls of next on a
  -- new enumerator come to an end, and give the paths of the listing in order, and then the empty
  -- path for ever. The fuel exceeds the directories that the listing visits; those that
  -- cannot be opened are passed over.
  pub nexts-Walks :
      (fuel k n : ℕ) (root_path : Bytes) (listing : List Bytes)
      → Walks system options n (root_path ∷ []) listing
      → n < fuel
      → nexts fuel k (file_enumerator root_path) ≡ returned (padded k listing)
  unfolding file_enumerator
  nexts-Walks fuel k n root_path listing w h =
      nexts-Upcoming fuel k n (file_enumerator root_path) listing (listing, w, refl) h
