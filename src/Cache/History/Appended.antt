-- ===== src/Cache/History/Appended.antt =====
-- The numbered files are one log: a line is appended to it, and only its oldest file is ever dropped.
use nm_daemon.Base.{
  ℕ, zero, suc, ◌≤◌, ◌<◌, ◌≡◌, inl, inr, refl, sym, ap, ◌∙◌, Option, none, some, List, [], ◌∷◌,
  ◌++◌, append_assoc, append-nil, if◌then◌else◌, ◌==◌, nat_eq, arith, Option-cases, Bool-cases,
}
use nm_daemon.Cache.History.{
  Files, lines, put, remove_file, rename_if_exists, shift, rotate_files, overflows, append_line,
}

module _ (Line : Type 0) (size : Line → ℕ) where
  -- What the files up to a number hold, oldest first, and what those below it hold.
  abbrev pub kept : ℕ → Files Line size → List Line
  kept zero f = lines Line size (f 0)
  kept (suc n) f = lines Line size (f (suc n)) ++ kept n f

  abbrev pub below : ℕ → Files Line size → List Line
  below zero f = []
  below (suc n) f = kept n f

  rename_lem :
      (i j x : ℕ) (f : Files Line size)
      → f j ≡ none
      → i < j
      → rename_if_exists Line size i j f x ≡ (if i == x then none else if j == x then f i else f x)
  rename_lem i j x f e h = elim (Option-cases (f i)) [
    | inl n ↦ rw (n, rename_if_exists) (ground arith)
    | inr (ls, n) ↦ rw (n, rename_if_exists) (ground arith)
  ]

  shift_lem :
      (k : ℕ) (f : Files Line size)
      → f (suc k) ≡ none
      → (shift Line size k f 0 ≡ f 0)
        × (shift Line size k f 1 ≡ none)
        × ((j : ℕ) → 0 < j → j ≤ k → shift Line size k f (suc j) ≡ f j)
        × ((j : ℕ) → suc k < j → shift Line size k f j ≡ f j)
  unfolding shift
  shift_lem zero f e = (refl, e, λ j a b. absurd (omega arith), λ j a. refl)
  shift_lem (suc i) f e =
      let g = rename_if_exists Line size (suc i) (suc (suc i)) f in
      let at = λ (x : ℕ). rename_lem (suc i) (suc (suc i)) x f e (omega arith) in
      let (a, b, c, d) = shift_lem i g (at (suc i) ∙ ground arith) in
      (
        ground (arith, a, at 0),
        b,
        λ j p q. ground (arith, c j p, d (suc j), at j, at (suc j)),
        λ j p. ground (arith, d j, at j),
      )

  kept_moved :
      (n : ℕ) (f g : Files Line size)
      → ((j : ℕ) → j ≤ n → g (suc j) ≡ f j)
      → g 0 ≡ none
      → kept (suc n) g ≡ kept n f
  kept_moved zero f g h e =
      ap (λ (o : Option (List Line)). lines Line size o ++ lines Line size (g 0))
        (h 0 (omega arith))
      ∙ ap (λ (o : Option (List Line)). lines Line size (f 0) ++ lines Line size o) e
      ∙ append-nil _
  kept_moved (suc n) f g h e =
      ap (λ (o : Option (List Line)). lines Line size o ++ kept (suc n) g) (h (suc n) (omega arith))
      ∙ ap (λ (l : List Line). lines Line size (f (suc n)) ++ l)
          (kept_moved n f g (λ j p. h j (omega arith)) e)

  rotate_files_lem :
      (n j : ℕ) (f : Files Line size)
      → j ≤ n
      → (rotate_files Line size (suc n) f (suc j) ≡ f j)
        × (rotate_files Line size (suc n) f 0 ≡ none)
  unfolding rotate_files
  rotate_files_lem n j f h =
      let g = remove_file Line size (suc n) f in
      let (a, b, c, d) = shift_lem n g (ground arith) in
      let at = λ (x : ℕ). rename_lem 0 1 x (shift Line size n g) b (omega arith) in
      (ground (arith, at (suc j), a, c j, d (suc j)), ground (arith, at 0))

  kept-rotate_files :
      (n : ℕ) (f : Files Line size) → kept n (rotate_files Line size n f) ≡ below n f
  unfolding rotate_files
  kept-rotate_files zero f = refl
  kept-rotate_files (suc n) f =
      kept_moved n f (rotate_files Line size (suc n) f) (λ j h. (rotate_files_lem n j f h).0)
        (rotate_files_lem n 0 f (omega arith)).1

  kept-put :
      (n : ℕ) (f : Files Line size) (line : Line)
      → kept n (put Line size 0 (some (lines Line size (f 0) ++ line ∷ [])) f)
        ≡ kept n f ++ line ∷ []
  kept-put zero f line = refl
  kept-put (suc n) f line =
      let content = some (lines Line size (f 0) ++ line ∷ []) in
      let apart : put Line size 0 content f (suc n) ≡ f (suc n) = ground arith in
      ap (λ (o : Option (List Line)). lines Line size o ++ kept n (put Line size 0 content f)) apart
      ∙ ap (λ (l : List Line). lines Line size (f (suc n)) ++ l) (kept-put n f line)
      ∙ sym (append_assoc (lines Line size (f (suc n))) (kept n f) (line ∷ []))

  -- The file in use and the rotated ones, read from the oldest, are one log. Appending a line puts it at
  -- the log's end, and drops nothing unless the line would not fit into the file in use: then it drops
  -- exactly the lines of the oldest file.
  pub history_appends :
      (max_bytes rotations : ℕ) (line : Line) (f : Files Line size)
      → kept rotations (append_line Line size max_bytes rotations line f)
        ≡ (if overflows Line size max_bytes line f then below rotations f else kept rotations f)
          ++ line ∷ []
  unfolding append_line
  history_appends max_bytes rotations line f =
      elim (Bool-cases (overflows Line size max_bytes line f)) [
        | inl b ↦
            rw (b, append_line)
              (kept-put rotations (rotate_files Line size rotations f) line
                ∙ ap (λ (l : List Line). l ++ line ∷ []) (kept-rotate_files rotations f))
        | inr b ↦ rw (b, append_line) (kept-put rotations f line)
      ]
