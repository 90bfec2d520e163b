-- ===== src/Tests/File.antt =====
-- The theorem about files at a concrete input.
use book_filer_module_ssh.Prelude.{
  ℕ, Bool, true, false, Option, none, some, List, [], ◌∷◌, take, length-take, arith, str_eq, ◌≡◌,
  ◌⊎◌, inl, inr, refl, if◌then◌else◌,
}
use book_filer_module_ssh.Log.File.{
  FileApi, FileContract, ReadOutcome, read_file, read_file-ReadOutcome,
}

abbrev close_first : List ℕ → List ℕ
close_first [] = []
close_first (fd ∷ fds) = fds

-- One file, which has got shorter since its size was taken.
abbrev files : FileApi
files = record {
  World = List ℕ;
  fopen = λ path w. if str_eq path "key.pem" then (some 7, 7 ∷ w) else (none, w);
  file_size = λ path w. some 5;
  fread = λ fd n w. (take n (1 ∷ 2 ∷ 3 ∷ []), w);
  fclose = λ fd w. close_first w;
}

opening :
    (known : Bool) (w : List ℕ)
    → let (fd, w') =
        (let opened : Option ℕ × List ℕ = if known then (some 7, 7 ∷ w) else (none, w) in opened) in
      ((fd ≡ none) × (w' ≡ w)) ⊎ ((h : ℕ) × (fd ≡ some h) × (w' ≡ h ∷ w))
opening true w = inr (7, refl, refl)
opening false w = inl (refl, refl)

closing : (fd : ℕ) (rest w : List ℕ) → w ≡ fd ∷ rest → close_first w ≡ rest
closing fd rest w e = rw e

abbrev contract : FileContract files
contract = record {
  opened = λ w. w;
  opens = λ path w. opening (str_eq path "key.pem") w;
  reads = λ fd n w. (refl, omega (arith, length-take {A = ℕ} n (1 ∷ 2 ∷ 3 ∷ [])));
  closes = closing;
}

read_file-ReadOutcome_example :
    ReadOutcome files contract "key.pem" (3 ∷ []) (read_file files "key.pem" (3 ∷ []))
read_file-ReadOutcome_example = read_file-ReadOutcome files contract "key.pem" (3 ∷ [])
