-- ===== src/File/Directories/Creation.antt =====
-- What a created directory leaves behind.
use kwctoolkit.Prelude.{
  ℕ, ◌≡◌, refl, inl, inr, Bool-cases, Bool, true, false, List, [], ◌∷◌, Bytes, returned, arith,
}
use kwctoolkit.Prelude.{◌+◌, ◌≤◌, length}
use kwctoolkit.File.Directories.Parents.{sub_paths-end}
use kwctoolkit.File.Directories.{
  FileSystem, directory_exists, create_all, create_directory, sub_paths, reversed,
}

module _ {F : Type 0} (fs : FileSystem F) where
  -- All of the paths are directories.
  abbrev pub AllExist : List Bytes → F → Type 0
  AllExist [] f = true ≡ true
  AllExist (p ∷ ps) f = (directory_exists fs p f ≡ true) × AllExist ps f

module _ {F : Type 0} (fs : FileSystem F)
    (makes : (p : Bytes) (f : F)
      → (fs.mkdir p f).0 ≡ true
      → directory_exists fs p (fs.mkdir p f).1 ≡ true)
    (keeps : (p q : Bytes) (f : F)
      → directory_exists fs q f ≡ true
      → directory_exists fs q (fs.mkdir p f).1 ≡ true) where
  create_all-keeps :
      (ps : List Bytes) (q : Bytes) (f : F)
      → directory_exists fs q f ≡ true
      → directory_exists fs q (create_all fs ps f).1 ≡ true
  unfolding create_all
  create_all-keeps [] q f h = h
  create_all-keeps (p ∷ ps) q f h =
      let f' = (fs.mkdir p f).1 in
      elim (Bool-cases (directory_exists fs p f)) [
        | inl there ↦ rw (there) (create_all-keeps ps q f h)
        | inr missing ↦ elim (Bool-cases (fs.mkdir p f).0) [
          | inl made ↦ rw (missing, made) (create_all-keeps ps q f' (keeps p q f h))
          | inr failed ↦ elim (Bool-cases (directory_exists fs p f')) [
            | inl now ↦ rw (missing, failed) (rw (now) (create_all-keeps ps q f' (keeps p q f h)))
            | inr never ↦ rw (missing, failed) (rw (never) (keeps p q f h))
          ]
        ]
      ]

  create_all-AllExist :
      (ps : List Bytes) (f : F)
      → (create_all fs ps f).0 ≡ true
      → AllExist fs ps (create_all fs ps f).1
  unfolding create_all
  create_all-AllExist [] f h = refl
  create_all-AllExist (p ∷ ps) f h =
      let f' = (fs.mkdir p f).1 in
      elim (Bool-cases (directory_exists fs p f)) [
        | inl there ↦
            rw (there) (create_all-keeps ps p f there, create_all-AllExist ps f (rw (there) at h))
        | inr missing ↦ elim (Bool-cases (fs.mkdir p f).0) [
          | inl made ↦
              rw (missing, made)
                (
                  create_all-keeps ps p f' (makes p f made),
                  create_all-AllExist ps f' (rw (missing, made) at h),
                )
          | inr failed ↦ elim (Bool-cases (directory_exists fs p f')) [
            | inl now ↦
                rw (missing, failed)
                  (rw (now) (
                    create_all-keeps ps p f' now,
                    create_all-AllExist ps f' (rw (missing, failed, now) at h),
                  ))
            | inr never ↦
                let contra : false ≡ true = rw (missing, failed, never) at h in
                absurd (ground arith)
          ]
        ]
      ]

  all_last : (ps acc : List Bytes) (f : F) → AllExist fs (reversed ps acc) f → AllExist fs acc f
  all_last [] acc f h = h
  all_last (p ∷ ps) acc f h = (all_last ps (p ∷ acc) f h).1

  all_reversed : (ps acc : List Bytes) (f : F) → AllExist fs (reversed ps acc) f → AllExist fs ps f
  all_reversed [] acc f h = refl
  all_reversed (p ∷ ps) acc f h = ((all_last ps (p ∷ acc) f h).0, all_reversed ps (p ∷ acc) f h)

  -- On a file system where mkdir makes a directory when it succeeds and never takes one away,
  -- CreateDirectory comes to an end, with two rounds more than the path has characters at most,
  -- and if it returns true then the path and all of its parents are directories afterwards.
  pub create_directory-AllExist :
      (fuel : ℕ) (full_path : Bytes) (f : F)
      → length full_path + 2 ≤ fuel
      → (paths : List Bytes) × (done : Bool) × (f' : F) × (sub_paths fuel full_path
          ≡ returned (full_path ∷ paths))
        × (create_directory fs fuel full_path f ≡ returned (done, f'))
        × (done ≡ true → AllExist fs (full_path ∷ paths) f')
  unfolding create_directory
  create_directory-AllExist fuel full_path f h =
      let (paths, e) = sub_paths-end fuel full_path h in
      let ps = reversed (full_path ∷ paths) [] in
      (
        paths,
        (create_all fs ps f).0,
        (create_all fs ps f).1,
        e,
        rw (e) refl,
        λ d.
            all_reversed (full_path ∷ paths) [] (create_all fs ps f).1 (create_all-AllExist ps f d),
      )
