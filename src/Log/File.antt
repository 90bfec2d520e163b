-- ===== src/Log/File.antt =====
-- `readFile` (src/bookfiler/Util.cpp). The C library's files and `std::filesystem::file_size` are a
-- parameter, over a world that the model knows only through them.
use book_filer_module_ssh.Prelude.{
  ℕ, String, Option, none, some, List, [], ◌∷◌, ◌++◌, zero, suc, ◌-◌, ◌≤◌, length, length-append,
  length-replicate, drop, replicate, ◌≡◌, ◌⊎◌, inl, inr, refl, sym, subst, ◌∙◌, arith, Option-cases,
}
use book_filer_module_ssh.Settings.{Bytes}
use book_filer_module_ssh.Flow.{
  M, Result, returned, thrown, undefined, terminated, unfinished, system_error,
}

pub record FileApi : Type 1 where
  pub World : Type 0
  -- The file, or a null pointer.
  pub fopen : String → World → Option ℕ × World
  -- The size of the file at a path; `none` when it throws.
  pub file_size : String → World → Option ℕ
  -- What `fread` puts at the start of a buffer of so many bytes.
  pub fread : ℕ → ℕ → World → Bytes × World
  pub fclose : ℕ → World → World

-- A buffer in which the first bytes are overwritten.
abbrev overwrite : Bytes → Bytes → Bytes
overwrite bytes buffer = bytes ++ drop (length bytes) buffer

-- What was read, and zeros up to the size of the buffer.
abbrev pub filled : ℕ → Bytes → Bytes
filled size bytes = overwrite bytes (replicate size 0)

length-drop : (n : ℕ) (bytes : Bytes) → length (drop n bytes) ≡ length bytes - n
length-drop zero bytes = omega arith
length-drop (suc n) [] = omega arith
length-drop (suc n) (b ∷ bytes) = omega (arith, length-drop n bytes)

filled-size : (size : ℕ) (bytes : Bytes) → length bytes ≤ size → length (filled size bytes) ≡ size
filled-size size bytes fit = omega (
  arith,
  length-append bytes (drop (length bytes) zeros),
  length-drop (length bytes) zeros,
  length-replicate {A = ℕ} size 0,
)
  where
    zeros : Bytes
    zeros = replicate size 0

module _ (api : FileApi) where
  open api use {World, fopen, file_size, fread, fclose}

  -- What `readFile` does with an open file.
  unfoldable pub read_open : String → ℕ → M World Bytes
  read_open path fd w = elim (file_size path w) [
    | none ↦ thrown system_error w
    | some size ↦
        let (bytes, w) = fread fd size w in
        returned (overwrite bytes (replicate size 0)) (fclose fd w)
  ]

  unfoldable pub read_file : String → M World Bytes
  unfolding read_open
  read_file path w =
      let (fd, w) = fopen path w in elim fd [ none ↦ returned [] w | some fd ↦ read_open path fd w ]

  -- Which files are open, that each function opens and closes what it says, and that a read fits.
  pub record FileContract : Type 0 where
    pub opened : World → List ℕ
    pub opens :
        (path : String) (w : World)
        → let (fd, w') = fopen path w in
          ((fd ≡ none) × (opened w' ≡ opened w))
          ⊎ ((h : ℕ) × (fd ≡ some h) × (opened w' ≡ h ∷ opened w))
    pub reads :
        (fd n : ℕ) (w : World)
        → (opened (fread fd n w).1 ≡ opened w) × (length (fread fd n w).0 ≤ n)
    pub closes :
        (fd : ℕ) (rest : List ℕ) (w : World) → opened w ≡ fd ∷ rest → opened (fclose fd w) ≡ rest

  module _ (files : FileContract) where
    open files use {opened}

    -- An exception leaves the file open; otherwise the same files are open as before, and the text
    -- is empty if the file could not be opened, and else what was read and then zeros.
    abbrev pub ReadOutcome : String → World → Result World Bytes → Type 0
    ReadOutcome path w (returned text d) =
        (opened d ≡ opened w)
        × ((((fopen path w).0 ≡ none) × (text ≡ []))
            ⊎ ((fd size : ℕ) × ((fopen path w).0 ≡ some fd)
                × (file_size path (fopen path w).1 ≡ some size)
                × (text ≡ filled size (fread fd size (fopen path w).1).0)
                × (length text ≡ size)))
    ReadOutcome path w (thrown e d) =
        (fd : ℕ) × ((fopen path w).0 ≡ some fd)
        × (file_size path (fopen path w).1 ≡ none)
        × (opened d ≡ fd ∷ opened w)
    ReadOutcome path w (undefined d) = ⊥
    ReadOutcome path w (terminated d) = ⊥
    ReadOutcome path w (unfinished d) = ⊥

    -- Where files are opened and closed as documented and a read gives no more than it is asked for:
    -- `readFile` returns with the same files open as before, and either the file could not be opened
    -- and the text is empty, or it was opened and the text has the size that the file had: what one
    -- read of the whole file gave, and then zeros; or it throws because the file was opened and its
    -- size cannot be had, and leaves the file open.
    pub read_file-ReadOutcome : (path : String) (w : World) → ReadOutcome path w (read_file path w)
    unfolding read_file
    read_file-ReadOutcome path w = elim (files.opens path w) [
      | inl (missing, same) ↦
          let ends : read_file path w ≡ returned [] (fopen path w).1 = ground arith in
          subst (ReadOutcome path w) (sym ends) (same, inl (missing, refl))
      | inr (fd, found, now_open) ↦
          let opened_world = (fopen path w).1 in
          elim (Option-cases (file_size path opened_world)) [
            | inl unknown ↦
                let ends : read_file path w ≡ thrown system_error opened_world = ground arith in
                subst (ReadOutcome path w) (sym ends) (fd, found, unknown, now_open)
            | inr (size, known) ↦
                let (bytes, read_world) = fread fd size opened_world in
                let ends : read_file path w
                    ≡ returned (overwrite bytes (replicate size 0)) (fclose fd read_world) =
                  ground arith in
                subst (ReadOutcome path w) (sym ends) (
                  files.closes fd (opened w) read_world
                      ((files.reads fd size opened_world).0 ∙ now_open),
                  inr (
                    fd,
                    size,
                    found,
                    known,
                    refl,
                    filled-size size bytes (files.reads fd size opened_world).1,
                  ),
                )
          ]
    ]
